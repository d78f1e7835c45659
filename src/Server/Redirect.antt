-- ===== src/Server/Redirect.antt =====
-- src/main.rs: `redirect_http_to_https` and `redirect_location`. The parsers of the `http` crate, of an
-- authority and of a header value, are parameters.
use open_tf_mirror.Base.{
  ℕ, Bool, true, false, not, ◌&&◌, ◌||◌, ◌==◌, [], ◌∷◌, ◌++◌, any, Option, some, none, Str, str_beq,
  codes, decimal, if◌then◌else◌,
}
use open_tf_mirror.Http.Response.{HttpResponse, status_only}
use open_tf_mirror.Http.Response

pub data Method : Type 0 where
  get head other : Method

-- `host` is the header, if it is there as text; `path_and_query` is missing for a request such as
-- `OPTIONS *`.
pub record Request : Type 0 where
  pub method : Method
  pub path : Str
  pub path_and_query : Option Str
  pub host : Option Str

abbrev pub is_probe : Str → Bool
is_probe path = str_beq path (codes "/readyz") || str_beq path (codes "/livez")

abbrev pub is_safe : Method → Bool
is_safe get = true
is_safe head = true
is_safe other = false

abbrev starts_with : ℕ → Str → Bool
starts_with c [] = false
starts_with c (d ∷ s) = d == c

-- An IPv6 address gets brackets.
unfoldable pub bracketed : Str → Str
bracketed hostname =
    if any (◌==◌ b':') hostname && not (starts_with b'[' hostname)
    then b'[' ∷ hostname ++ b']' ∷ []
    else hostname

unfoldable pub with_port : Str → ℕ → Str
with_port hostname https_port =
    if https_port == 443 then hostname else (hostname ++ b':' ∷ decimal https_port)

abbrev pub target : Option Str → Str
target none = codes "/"
target (some path_and_query) = path_and_query

-- `authority_host` is the host of `parse::<Authority>()`, without user and port.
module _ (authority_host : Str → Option Str) (is_header_value : Str → Bool) where
  unfoldable pub redirect_location : (host path_and_query : Str) → (https_port : ℕ) → Option Str
  redirect_location host path_and_query https_port = elim (authority_host host) [
    | none ↦ none
    | some hostname ↦
        let location =
          codes "https://" ++ with_port (bracketed hostname) https_port ++ path_and_query in
        if is_header_value location then some location else none
  ]

  abbrev pub found_at : Option Str → HttpResponse
  found_at none = status_only 400
  found_at (some location) = record (status_only 302) {
    headers = (codes "location", location) ∷ [];
  }

  -- The answer to a request that is not let through.
  unfoldable pub redirected : ℕ → Request → HttpResponse
  redirected https_port request =
      if not (is_safe request.method)
      then record { status = 400; headers = []; body = Response.text (codes "Use HTTPS") }
      else (elim request.host [
        | none ↦ status_only 400
        | some host ↦ found_at (redirect_location host (target request.path_and_query) https_port)
      ])

  -- `next` is what the listener serves behind this.
  unfoldable pub redirect_http_to_https :
      {S : Type 0} → ℕ → (Request → S → S × HttpResponse) → Request → S → S × HttpResponse
  redirect_http_to_https https_port next request s =
      if is_probe request.path then next request s else (s, redirected https_port request)
