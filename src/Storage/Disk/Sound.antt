-- ===== src/Storage/Disk/Sound.antt =====
-- src/storage.rs: what a match of `archive_matches_checksum` says of the file, and of the table.
use open_tf_mirror.Base.{
  ℕ, ◌≡◌, inl, inr, refl, sym, ◌∙◌, Bool, true, [], some, none, Option-cases, Bool-cases, Str,
  str_eq, str_beq, str_beq_iff, Result, ok, Result-cases, arith,
}
use open_tf_mirror.Base.Map.{get}
use open_tf_mirror.Storage.{FileIdentity, ProviderStorageError}
use open_tf_mirror.Storage.Disk.{
  identity_beq_iff, Entry, Disk, Io, Storage, symlink_metadata, hash_reads, fits, hash_file,
  is_verified, settle_hash, match_hash, archive_matches_checksum,
}
use open_tf_mirror.Storage.Disk.Identified.{
  ReadsAll, IsNew, hash_reads-some, HasChecksum, IsIdentified, remove-IsIdentified, remove-IsNew,
  record_verified-IsNew, record_verified-IsIdentified,
}

module _ (sha256_hex : Str → Str) where
  hash_file-some :
      (call : Io) (path : Str) (max_bytes : ℕ) (disk : Disk) (actual : Str)
      (identity : FileIdentity)
      → ReadsAll call
      → hash_file sha256_hex call path max_bytes disk ≡ ok (some (actual, identity))
      → (entry : Entry) × (get path disk ≡ some entry)
        × (entry.regular ≡ true)
        × (entry.identity ≡ identity)
        × (sha256_hex entry.content ≡ actual)
  unfolding hash_file
  hash_file-some call path max_bytes disk actual identity r h =
      elim (Option-cases (get path disk)) [
        | inl missing ↦ absurd (ground arith)
        | inr (entry, found) ↦
            elim (Option-cases (hash_reads max_bytes 0 [] (call.reads entry.content))) [
              | inl large ↦ absurd (ground arith)
              | inr (hashed, all_read) ↦
                  let same : hashed ≡ entry.content =
                    hash_reads-some max_bytes 0 [] (call.reads entry.content) hashed
                      (r.filled entry.content) all_read
                    ∙ r.whole entry.content in
                  (entry, found, ground arith, ground arith, rw (← same) (ground arith))
            ]
      ]

  -- Only the table changes, and it stays true; a match says that the file has the checksum.
  pub record IsSoundMatch (s : Storage) (path expected : Str)
      (answer : Storage × Result ProviderStorageError Bool) : Type 0 where
    pub same : answer.0 ≡ record s { verified = answer.0.verified }
    pub identified : IsIdentified sha256_hex answer.0
    pub fresh : (identity : FileIdentity) → IsNew identity s → IsNew identity answer.0
    pub matched : answer.1 ≡ ok true → HasChecksum sha256_hex s.disk path expected

  match_hash-IsSoundMatch :
      (call : Io) (path expected : Str) (s : Storage)
      → ReadsAll call
      → IsIdentified sha256_hex s
      → IsSoundMatch s path expected (match_hash sha256_hex call path expected s)
  unfolding match_hash settle_hash
  match_hash-IsSoundMatch call path expected s r h =
      elim (Result-cases (hash_file sha256_hex call path s.max_archive_bytes s.disk)) [
        | inr (error, e) ↦
            rw (match_hash, e)
              (record { same = refl; identified = h; fresh = λ j n. n; matched = λ q. cc })
        | inl (none, e) ↦
            rw (match_hash, e)
              (record {
                same = refl;
                identified = remove-IsIdentified sha256_hex path s h;
                fresh = remove-IsNew sha256_hex path s;
                matched = λ q. cc;
              })
        | inl (some (actual, identity), e) ↦
            let (entry, found, regular, named, hashed) =
              hash_file-some call path s.max_archive_bytes s.disk actual identity r e in
            elim (Bool-cases (str_beq actual expected)) [
              | inr other ↦
                  rw (match_hash, e, settle_hash, other)
                    (record {
                      same = refl;
                      identified = remove-IsIdentified sha256_hex path s h;
                      fresh = remove-IsNew sha256_hex path s;
                      matched = λ q. cc;
                    })
              | inl equal ↦
                  let right = hashed ∙ (str_beq_iff actual expected).0 equal in
                  rw (match_hash, e, settle_hash, equal)
                    (record {
                      same = refl;
                      identified = rw (← named) (
                          record_verified-IsIdentified sha256_hex path entry expected s found right
                            h);
                      fresh = λ j n.
                          rw (← named)
                            (record_verified-IsNew sha256_hex path entry expected s j found n);
                      matched = λ q. (entry, found, regular, right);
                    })
            ]
      ]

  is_verified-checksum :
      (path expected : Str) (s : Storage) (entry : Entry)
      → IsIdentified sha256_hex s
      → get path s.disk ≡ some entry
      → is_verified (get path s.verified) entry.identity expected ≡ true
      → sha256_hex entry.content ≡ expected
  is_verified-checksum path expected s entry h found v = elim (Option-cases (get path s.verified)) [
    | inl unknown ↦ absurd (ground arith)
    | inr (file, known) ↦
        h path file entry known found
          (sym ((identity_beq_iff file.identity entry.identity).0 (ground arith)))
        ∙ (str_beq_iff file.checksum expected).0 (ground arith)
  ]

  -- With a true table, `archive_matches_checksum` answers "yes" only for a file with that hash.
  pub archive_matches_checksum-IsSoundMatch :
      (call : Io) (path expected : Str) (s : Storage)
      → ReadsAll call
      → IsIdentified sha256_hex s
      → IsSoundMatch s path expected (archive_matches_checksum sha256_hex call path expected s)
  unfolding archive_matches_checksum symlink_metadata
  archive_matches_checksum-IsSoundMatch call path expected s r h =
      elim (Bool-cases (call.stat_fails path)) [
        | inl fails ↦
            rw (archive_matches_checksum, symlink_metadata, fails)
              (record { same = refl; identified = h; fresh = λ j n. n; matched = λ q. cc })
        | inr works ↦ elim (Option-cases (get path s.disk)) [
          | inl missing ↦
              rw (archive_matches_checksum, symlink_metadata, works, missing)
                (record { same = refl; identified = h; fresh = λ j n. n; matched = λ q. cc })
          | inr (entry, found) ↦ elim (Bool-cases (fits s.max_archive_bytes entry)) [
            | inr large ↦
                rw (archive_matches_checksum, symlink_metadata, works, found, large)
                  (record { same = refl; identified = h; fresh = λ j n. n; matched = λ q. cc })
            | inl small ↦
                elim (Bool-cases (is_verified (get path s.verified) entry.identity expected)) [
                  | inr unknown ↦
                      rw (archive_matches_checksum, symlink_metadata, works, found, small, unknown)
                        (match_hash-IsSoundMatch call path expected s r h)
                  | inl known ↦
                      rw (archive_matches_checksum, symlink_metadata, works, found, small, known)
                        (record {
                          same = refl;
                          identified = h;
                          fresh = λ j n. n;
                          matched = λ q. (
                            entry,
                            found,
                            ground arith,
                            is_verified-checksum path expected s entry h found known,
                          );
                        })
                ]
          ]
        ]
      ]
