-- ===== src/Storage/Fetch/Atomic.antt =====
-- src/storage.rs: a download publishes the whole archive with the right hash, or leaves no trace.
use open_tf_mirror.Base.{
  ℕ, ◌≤◌, ◌<◌, ◌≡◌, ◌≢◌, ◌⊎◌, inl, inr, refl, sym, ◌∙◌, Bool, true, ◌||◌, List, [], Option, some,
  none, Bool-cases, Str, str_eq, str_beq, str_beq_iff, Result, ok, err, Result-cases, arith, length,
  u64_max,
}
use open_tf_mirror.Base.Map.{get, insert, contains_key, get-insert_self}
use open_tf_mirror.Outbound.Client
use open_tf_mirror.Outbound.Client.{UrlLib, Response, OutboundClient, OutboundError}
use open_tf_mirror.Storage.{FileIdentity, ProviderStorageError, io}
use open_tf_mirror.Storage.Disk.{Entry, Disk, Io, Storage}
use open_tf_mirror.Outbound.Client.{is_longer}
use open_tf_mirror.Storage.Fetch.{
  new_file, copy_chunks, clean_up, Done, publish, copy_body, copy_response, fill_temp,
  note_verified, settle_download,
}
use open_tf_mirror.Storage.Fetch.Copy.{
  SameBut, get-insert_other, get-remove_other, HasBytes, copy_chunks-SameBut, copy_chunks-HasBytes,
  get-rename, get-rename_other,
}

module _ (sha256_hex : Str → Str) (identity : FileIdentity) (max_bytes : ℕ)
    (expected temp destination : Str) where
  -- The new file stands at the destination, with the right hash and within the limit.
  abbrev pub IsPublished : Disk → Type 0
  IsPublished disk =
      (entry : Entry) × (get destination disk ≡ some entry)
      × (entry.regular ≡ true)
      × (entry.identity ≡ identity)
      × (sha256_hex entry.content ≡ expected)
      × (length entry.content ≤ max_bytes)

  -- The archive is whole and right at the destination, or the destination is as it was; and no other
  -- path than these two has changed.
  abbrev pub IsAllOrNothing : Storage → Storage → Type 0
  IsAllOrNothing before after =
      ((path : Str) → path ≢ temp → path ≢ destination → get path after.disk ≡ get path before.disk)
      × ((get destination after.disk ≡ get destination before.disk) ⊎ IsPublished after.disk)

  -- Whatever happens, only these two paths change; an error leaves the destination as it was.
  pub record IsAtomic (before : Disk) (done : Done) : Type 0 where
    pub others : (path : Str) → path ≢ temp → path ≢ destination → get path done.0 ≡ get path before
    pub kept :
        (error : ProviderStorageError)
        → done.1 ≡ err error
        → get destination done.0 ≡ get destination before
    pub published : done.1 ≡ ok tt → IsPublished done.0 × (get temp done.0 ≡ none)

  module _ (distinct : temp ≢ destination) where
    err-IsAtomic :
        (before disk : Disk) (error : ProviderStorageError)
        → SameBut temp before disk
        → IsAtomic before (disk, err error)
    err-IsAtomic before disk error same = record {
      others = λ path ne _. same path ne;
      kept = λ e q. same destination (λ p. distinct (sym p));
      published = λ q. cc;
    }

    pub clean_up-IsAtomic :
        (before : Disk) (done : Done) → IsAtomic before done → IsAtomic before (clean_up temp done)
    unfolding clean_up
    clean_up-IsAtomic before (disk, ok tt) h = h
    clean_up-IsAtomic before (disk, err error) h = record {
      others = λ path ne ne'. get-remove_other temp path disk ne ∙ h.others path ne ne';
      kept =
          λ e q. get-remove_other temp destination disk (λ p. distinct (sym p)) ∙ h.kept error refl;
      published = λ q. cc;
    }

module _ (sha256_hex : Str → Str) (call : Io) (max_bytes : ℕ) (expected temp destination : Str)
    (is_semver : Str → Bool) (is_error_status : ℕ → Bool) (urls : UrlLib) (client : OutboundClient)
    (send : urls.Url → Result OutboundError Response) (distinct : temp ≢ destination)
    (bound : max_bytes < u64_max) where
  publish-IsAtomic :
      (before disk : Disk) (entry : Entry) (hashed : Str)
      → entry.regular ≡ true
      → entry.identity ≡ call.identity
      → SameBut temp before disk
      → HasBytes max_bytes temp entry hashed disk
      → IsAtomic sha256_hex call.identity max_bytes expected temp destination before (
          publish is_semver sha256_hex is_error_status urls client send call expected temp
            destination hashed disk)
  unfolding publish
  publish-IsAtomic before disk entry hashed regular named same (h, k) =
      let (there, gone) =
        get-rename temp destination (record entry { content = hashed }) disk distinct h in
      elim (Bool-cases (str_beq (sha256_hex hashed) expected)) [
        | inr other ↦
            rw (publish, other)
              (err-IsAtomic sha256_hex call.identity max_bytes expected temp destination distinct
                before disk _ same)
        | inl equal ↦ elim (Bool-cases call.sync_fails) [
          | inl fails ↦
              rw (publish, equal, fails)
                (err-IsAtomic sha256_hex call.identity max_bytes expected temp destination distinct
                  before disk _ same)
          | inr synced ↦ elim (Bool-cases call.rename_fails) [
            | inl fails ↦
                rw (publish, equal, synced, fails)
                  (err-IsAtomic sha256_hex call.identity max_bytes expected temp destination
                    distinct before disk _ same)
            | inr renamed ↦
                rw (publish, equal, synced, renamed)
                  (record {
                    others = λ path ne ne'.
                        get-rename_other temp destination path disk ne ne' ∙ same path ne;
                    kept = λ e q. cc;
                    published = λ q. (
                      (
                        record entry { content = hashed },
                        there,
                        regular,
                        named,
                        (str_beq_iff (sha256_hex hashed) expected).0 equal,
                        k,
                      ),
                      gone,
                    );
                  })
          ]
        ]
      ]

  copy_body-IsAtomic :
      (before disk : Disk) (chunks : List (Option Str))
      → SameBut temp before disk
      → get temp disk ≡ some (new_file call.identity)
      → IsAtomic sha256_hex call.identity max_bytes expected temp destination before (
          copy_body is_semver sha256_hex is_error_status urls client send call max_bytes expected
            temp destination chunks disk)
  unfolding copy_body
  copy_body-IsAtomic before disk chunks same h =
      let copied = copy_chunks call max_bytes 0 temp [] chunks disk in
      let still : SameBut temp before copied.0 = λ path ne.
        copy_chunks-SameBut call max_bytes temp 0 [] chunks disk path ne ∙ same path ne in
      elim (Result-cases copied.1) [
        | inr (error, e) ↦
            rw (copy_body, e)
              (err-IsAtomic sha256_hex call.identity max_bytes expected temp destination distinct
                before copied.0 error still)
        | inl (bytes, e) ↦
            rw (copy_body, e)
              (publish-IsAtomic before copied.0 (new_file call.identity) bytes refl refl still (
                copy_chunks-HasBytes call max_bytes temp 0 [] chunks disk (new_file call.identity)
                  bytes bound refl (h, omega arith) e))
      ]

  copy_response-IsAtomic :
      (before disk : Disk) (response : Response)
      → SameBut temp before disk
      → get temp disk ≡ some (new_file call.identity)
      → IsAtomic sha256_hex call.identity max_bytes expected temp destination before (
          copy_response is_semver sha256_hex is_error_status urls client send call max_bytes
            expected temp destination response disk)
  unfolding copy_response
  copy_response-IsAtomic before disk response same h =
      elim (Bool-cases (is_error_status response.status)) [
        | inl bad ↦
            rw (copy_response, bad)
              (err-IsAtomic sha256_hex call.identity max_bytes expected temp destination distinct
                before disk _ same)
        | inr good ↦ elim (Bool-cases (is_longer response.content_length max_bytes)) [
          | inl long ↦
              rw (copy_response, good, long)
                (err-IsAtomic sha256_hex call.identity max_bytes expected temp destination distinct
                  before disk _ same)
          | inr short ↦
              rw (copy_response, good, short)
                (copy_body-IsAtomic before disk response.chunks same h)
        ]
      ]

  pub fill_temp-IsAtomic :
      (url : urls.Url) (before : Disk)
      → IsAtomic sha256_hex call.identity max_bytes expected temp destination before (
          fill_temp is_semver sha256_hex is_error_status urls client send call max_bytes expected
            temp destination url before)
  unfolding fill_temp
  fill_temp-IsAtomic url before =
      let opened = insert temp (new_file call.identity) before in
      let same : SameBut temp before opened =
        λ path ne. get-insert_other temp path (new_file call.identity) before ne in
      elim (Bool-cases (call.create_fails || contains_key temp before)) [
        | inl fails ↦
            rw (fill_temp, fails)
              (err-IsAtomic sha256_hex call.identity max_bytes expected temp destination distinct
                before before io (λ path ne. refl))
        | inr made ↦ elim (Result-cases (Client.get urls client send url).1) [
          | inr (error, e) ↦
              rw (fill_temp, made, e)
                (err-IsAtomic sha256_hex call.identity max_bytes expected temp destination distinct
                  before opened _ same)
          | inl (response, e) ↦
              rw (fill_temp, made, e)
                (copy_response-IsAtomic before opened response same
                  (get-insert_self temp (new_file call.identity) before))
        ]
      ]

  pub settle_download-disk :
      (s : Storage) (done : Done)
      → (settle_download is_semver sha256_hex is_error_status urls client send call destination
          expected s done).0.disk
        ≡ done.0
  unfolding settle_download note_verified
  settle_download-disk s (disk, err error) = refl
  settle_download-disk s (disk, ok tt) = ground arith

  pub settle_download-IsAllOrNothing :
      (s : Storage) (done : Done)
      → IsAtomic sha256_hex call.identity max_bytes expected temp destination s.disk done
      → IsAllOrNothing sha256_hex call.identity max_bytes expected temp destination s
          (settle_download is_semver sha256_hex is_error_status urls client send call destination
            expected s done).0
  settle_download-IsAllOrNothing s done h =
      let same = settle_download-disk s done in
      (
        λ path ne ne'. rw same (h.others path ne ne'),
        rw same (elim (Result-cases done.1) [
          | inl (_, e) ↦ inr (h.published e).0
          | inr (error, e) ↦ inl (h.kept error e)
        ]),
      )
