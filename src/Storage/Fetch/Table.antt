-- ===== src/Storage/Fetch/Table.antt =====
-- src/storage.rs: a download keeps the table of verified files true.
use open_tf_mirror.Base.{
  ℕ, ◌<◌, ◌≡◌, ◌≢◌, inl, inr, refl, sym, ◌∙◌, ap, Bool, none, Bool-cases, Str, str_eq, str_beq,
  str_beq_iff, Result, ok, err, Result-cases, arith, u64_max,
}
use open_tf_mirror.Base.Map.{get}
use open_tf_mirror.Outbound.Client.{UrlLib, Response, OutboundClient, OutboundError}
use open_tf_mirror.Storage.Disk.{Entry, Io, Storage, symlink_metadata}
use open_tf_mirror.Storage.Disk.Identified.{IsIdentified, IsNew, record_verified-IsIdentified}
use open_tf_mirror.Storage.Fetch.{Done, note_verified, settle_download}
use open_tf_mirror.Storage.Fetch.Atomic.{IsPublished, IsAtomic}

module _ (sha256_hex : Str → Str) (call : Io) (max_bytes : ℕ) (expected temp destination : Str)
    (is_semver : Str → Bool) (is_error_status : ℕ → Bool) (urls : UrlLib) (client : OutboundClient)
    (send : urls.Url → Result OutboundError Response) (distinct : temp ≢ destination)
    (bound : max_bytes < u64_max) where
  disk-IsIdentified :
      (s : Storage) (done : Done)
      → IsIdentified sha256_hex s
      → IsNew call.identity s
      → IsAtomic sha256_hex call.identity max_bytes expected temp destination s.disk done
      → get temp done.0 ≡ none
      → IsIdentified sha256_hex (record s { disk = done.0 })
  disk-IsIdentified s done i fresh h swept path file entry known found same =
      elim (Bool-cases (str_beq path temp)) [
        | inl at_temp ↦
            absurd (ground (arith, ap (λ p. get p done.0) ((str_beq_iff path temp).0 at_temp)))
        | inr off_temp ↦
            let ne : path ≢ temp = λ e. ground (arith, (str_beq_iff path temp).1 e) in
            elim (Bool-cases (str_beq path destination)) [
              | inr elsewhere ↦
                  let ne' : path ≢ destination =
                    λ e. ground (arith, (str_beq_iff path destination).1 e) in
                  i path file entry known (sym (h.others path ne ne') ∙ found) same
              | inl there ↦
                  let here = (str_beq_iff path destination).0 there in
                  elim (Result-cases done.1) [
                    | inr (error, e) ↦
                        i path file entry known
                          (ap (λ p. get p s.disk) here
                            ∙ sym (h.kept error e)
                            ∙ ap (λ p. get p done.0) (sym here)
                            ∙ found)
                          same
                    | inl (_, e) ↦
                        let ((new, placed, _, named, _, _), _) = h.published e in
                        let twin : new ≡ entry = ground (arith, ap (λ p. get p done.0) here) in
                        absurd (
                          fresh.unknown path file known
                            (sym named ∙ ap (λ (x : Entry). x.identity) twin ∙ same))
                  ]
            ]
      ]

  note_verified-IsIdentified :
      (s : Storage)
      → IsIdentified sha256_hex s
      → IsPublished sha256_hex call.identity max_bytes expected temp destination s.disk
      → IsIdentified sha256_hex (
          note_verified is_semver sha256_hex is_error_status urls client send call destination
            expected s)
  unfolding note_verified symlink_metadata
  note_verified-IsIdentified s i (entry, placed, regular, _, hashed, _) =
      elim (Bool-cases (call.stat_fails destination)) [
        | inl fails ↦ rw (note_verified, symlink_metadata, fails) i
        | inr works ↦
            rw (note_verified, symlink_metadata, works, placed, regular)
              (record_verified-IsIdentified sha256_hex destination entry expected s placed hashed i)
      ]

  pub settle_download-IsIdentified :
      (s : Storage) (done : Done)
      → IsIdentified sha256_hex s
      → IsNew call.identity s
      → IsAtomic sha256_hex call.identity max_bytes expected temp destination s.disk done
      → get temp done.0 ≡ none
      → IsIdentified sha256_hex
          (settle_download is_semver sha256_hex is_error_status urls client send call destination
            expected s done).0
  unfolding settle_download note_verified symlink_metadata
  settle_download-IsIdentified s (disk, err error) i fresh h swept =
      disk-IsIdentified s (disk, err error) i fresh h swept
  settle_download-IsIdentified s (disk, ok u) i fresh h swept =
      let moved = disk-IsIdentified s (disk, ok u) i fresh h swept in
      elim (Bool-cases call.sync_parent_fails) [
        | inl fails ↦ rw (settle_download, fails) moved
        | inr synced ↦
            rw (settle_download, synced)
              (note_verified-IsIdentified (record s { disk = disk }) moved (h.published refl).0)
      ]
