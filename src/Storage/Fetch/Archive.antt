-- ===== src/Storage/Fetch/Archive.antt =====
-- src/storage.rs: the path that `load_or_fetch` answers leads to the archive with the right hash.
use open_tf_mirror.Base.{
  ℕ, ◌<◌, ◌≡◌, ◌≢◌, inl, inr, ◌∙◌, ap, Bool, true, false, Option, some, none, Str, str_eq, Result,
  ok, Result-cases, u64_max,
}
use open_tf_mirror.Outbound.Client.{UrlLib, Response, OutboundClient, OutboundError}
use open_tf_mirror.Metadata.Types.{PlatformMetadata}
use open_tf_mirror.Storage.{FileIdentity, ProviderArchiveKey, ProviderStorageError}
use open_tf_mirror.Storage.Disk.{Io, Storage, archive_matches_checksum}
use open_tf_mirror.Storage.Disk.Identified.{ReadsAll, HasChecksum, IsIdentified, IsNew}
use open_tf_mirror.Storage.Disk.Sound.{archive_matches_checksum-IsSoundMatch}
use open_tf_mirror.Storage.Fetch.{
  download, archive_path, bundled_path, look_up_cache, look_up, locked_load_or_fetch, fetch_valid,
}
use open_tf_mirror.Storage.Fetch.Verified.{temp_path, download-IsIdentified, download-HasChecksum}

module _ (sha256_hex : Str → Str) where
  -- A look-up changes the table only, which stays true; what it finds has the checksum.
  record IsSoundLookup (s : Storage) (expected : Str)
      (answer : Storage × Result ProviderStorageError (Option Str)) : Type 0 where
    same : answer.0 ≡ record s { verified = answer.0.verified }
    identified : IsIdentified sha256_hex answer.0
    fresh : (identity : FileIdentity) → IsNew identity s → IsNew identity answer.0
    found : (path : Str) → answer.1 ≡ ok (some path) → HasChecksum sha256_hex s.disk path expected

  -- The table is true, and the path that is answered has the archive.
  abbrev pub IsSoundFetch : Str → Storage × Result ProviderStorageError Str → Type 0
  IsSoundFetch expected answer =
      IsIdentified sha256_hex answer.0
      × ((path : Str) → answer.1 ≡ ok path → HasChecksum sha256_hex answer.0.disk path expected)

module _ (is_semver : Str → Bool) (sha256_hex : Str → Str) (is_error_status : ℕ → Bool)
    (urls : UrlLib) (client : OutboundClient)
    (send : urls.Url → Result OutboundError Response) where
  look_up_cache-IsSoundLookup :
      (call : Io) (destination expected : Str) (s : Storage)
      → ReadsAll call
      → IsIdentified sha256_hex s
      → IsSoundLookup sha256_hex s expected (
          look_up_cache is_semver sha256_hex is_error_status urls client send call destination
            expected s)
  unfolding look_up_cache
  look_up_cache-IsSoundLookup call destination expected s r i =
      let m = archive_matches_checksum-IsSoundMatch sha256_hex call destination expected s r i in
      let answer = archive_matches_checksum sha256_hex call destination expected s in
      elim (Result-cases answer.1) [
        | inr (error, e) ↦
            rw (look_up_cache, e)
              (record {
                same = m.same;
                identified = m.identified;
                fresh = m.fresh;
                found = λ p q. cc;
              })
        | inl (true, e) ↦
            rw (look_up_cache, e)
              (record {
                same = m.same;
                identified = m.identified;
                fresh = m.fresh;
                found = λ p q. let here : destination ≡ p = cc in rw (← here) (m.matched e);
              })
        | inl (false, e) ↦
            rw (look_up_cache, e)
              (record {
                same = m.same;
                identified = m.identified;
                fresh = m.fresh;
                found = λ p q. cc;
              })
      ]

  look_up-IsSoundLookup :
      (call : Io) (bundled : Option Str) (destination expected : Str) (s : Storage)
      → ReadsAll call
      → IsIdentified sha256_hex s
      → IsSoundLookup sha256_hex s expected (
          look_up is_semver sha256_hex is_error_status urls client send call bundled destination
            expected s)
  unfolding look_up
  look_up-IsSoundLookup call none destination expected s r i =
      look_up_cache-IsSoundLookup call destination expected s r i
  look_up-IsSoundLookup call (some bundled) destination expected s r i =
      let m = archive_matches_checksum-IsSoundMatch sha256_hex call bundled expected s r i in
      let answer = archive_matches_checksum sha256_hex call bundled expected s in
      elim (Result-cases answer.1) [
        | inr (error, e) ↦
            rw (look_up, e)
              (record {
                same = m.same;
                identified = m.identified;
                fresh = m.fresh;
                found = λ p q. cc;
              })
        | inl (true, e) ↦
            rw (look_up, e)
              (record {
                same = m.same;
                identified = m.identified;
                fresh = m.fresh;
                found = λ p q. let here : bundled ≡ p = cc in rw (← here) (m.matched e);
              })
        | inl (false, e) ↦
            let l = look_up_cache-IsSoundLookup call destination expected answer.0 r m.identified in
            rw (look_up, e)
              (record {
                same =
                    l.same
                    ∙ ap
                        (λ (t : Storage). record t {
                          verified =
                              (look_up_cache is_semver sha256_hex is_error_status urls client send
                                call destination expected answer.0).0.verified;
                        })
                        m.same;
                identified = l.identified;
                fresh = λ j n. l.fresh j (m.fresh j n);
                found = λ p q.
                    let same = ap (λ (t : Storage). t.disk) m.same in rw (← same) (l.found p q);
              })
      ]

  -- The operation starts: no file has the identity of the one that may be made.
  pub record IsReady (key : ProviderArchiveKey) (destination : Str) (call : Io) (s : Storage)
      : Type 0 where
    pub reads : ReadsAll call
    pub new : IsNew call.identity s
    pub distinct :
        temp_path is_semver sha256_hex is_error_status urls client send key s ≢ destination
    pub bound : s.max_archive_bytes < u64_max

  look_up-IsReady :
      (call : Io) (key : ProviderArchiveKey) (destination : Str) (s s' : Storage)
      → s' ≡ record s { verified = s'.verified }
      → ((identity : FileIdentity) → IsNew identity s → IsNew identity s')
      → IsReady key destination call s
      → IsReady key destination call s'
  look_up-IsReady call key destination s s' same fresh ready = record {
    reads = ready.reads;
    new = fresh call.identity ready.new;
    distinct = rw same ready.distinct;
    bound = rw same ready.bound;
  }

  locked_load_or_fetch-IsSoundFetch :
      (call : Io) (key : ProviderArchiveKey) (metadata : PlatformMetadata)
      (expected destination : Str) (s : Storage)
      → IsReady key destination call s
      → IsIdentified sha256_hex s
      → IsSoundFetch sha256_hex expected (
          locked_load_or_fetch is_semver sha256_hex is_error_status urls client send call key
            metadata expected destination s)
  unfolding locked_load_or_fetch
  locked_load_or_fetch-IsSoundFetch call key metadata expected destination s ready i =
      let bundled = bundled_path s.bundled_mirror key in
      let l = look_up-IsSoundLookup call bundled destination expected s ready.reads i in
      let looked =
        look_up is_semver sha256_hex is_error_status urls client send call bundled destination
          expected s in
      let disk_same = ap (λ (t : Storage). t.disk) l.same in
      elim (Result-cases looked.1) [
        | inr (error, e) ↦ rw (locked_load_or_fetch, e) (l.identified, λ p q. cc)
        | inl (some path, e) ↦
            rw (locked_load_or_fetch, e)
              (
                l.identified,
                λ p q. let here : path ≡ p = cc in rw (disk_same, ← here) (l.found path e),
              )
        | inl (none, e) ↦
            let after = look_up-IsReady call key destination s _ l.same l.fresh ready in
            let kept =
              download-IsIdentified is_semver sha256_hex is_error_status urls client send call key
                metadata expected destination looked.0 after.distinct after.bound after.new
                l.identified in
            elim (Result-cases
              (download is_semver sha256_hex is_error_status urls client send call key metadata
                expected destination looked.0).1) [
                  | inr (error, f) ↦ rw (locked_load_or_fetch, e, f) (kept, λ p q. cc)
                  | inl (_, f) ↦
                      rw (locked_load_or_fetch, e, f)
                        (
                          kept,
                          λ p q.
                              let here : destination ≡ p = cc in
                              rw (← here) (
                                download-HasChecksum is_semver sha256_hex is_error_status urls
                                  client send call key metadata expected destination looked.0
                                  after.distinct after.bound f),
                        )
                ]
      ]

  pub fetch_valid-IsSoundFetch :
      (first again : Io) (key : ProviderArchiveKey) (metadata : PlatformMetadata) (expected : Str)
      (s : Storage)
      → ReadsAll first
      → IsReady key (archive_path s.root key) again s
      → IsIdentified sha256_hex s
      → IsSoundFetch sha256_hex expected (
          fetch_valid is_semver sha256_hex is_error_status urls client send first again key metadata
            expected s)
  unfolding fetch_valid
  fetch_valid-IsSoundFetch first again key metadata expected s reads ready i =
      let destination = archive_path s.root key in
      let bundled = bundled_path s.bundled_mirror key in
      let l = look_up-IsSoundLookup first bundled destination expected s reads i in
      let looked =
        look_up is_semver sha256_hex is_error_status urls client send first bundled destination
          expected s in
      elim (Result-cases looked.1) [
        | inr (error, e) ↦ rw (fetch_valid, e) (l.identified, λ p q. cc)
        | inl (some path, e) ↦
            rw (fetch_valid, e)
              (
                l.identified,
                λ p q.
                    let here : path ≡ p = cc in
                    rw (ap (λ (t : Storage). t.disk) l.same, ← here) (l.found path e),
              )
        | inl (none, e) ↦
            rw (fetch_valid, e)
              (locked_load_or_fetch-IsSoundFetch again key metadata expected destination looked.0
                (look_up-IsReady again key destination s _ l.same l.fresh ready) l.identified)
      ]
