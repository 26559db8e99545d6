-- ===== src/Lightning/Security/Auth.antt =====
-- lightning_flask/src/core/security.py: the bearer tokens and the admin's header.
use Prim.Native.Char.{code}
use rails.Prelude.{
  String, string_eq, ◌≡◌, Bool, true, false, not, ◌&&◌, ◌==◌, ◌⊎◌, inl, inr, arith, leb, eq_iff,
  Bool-cases, if◌then◌else◌,
}
use rails.Text.{every, strip, truthy, starts_with, drop}
use rails.Effect.{Result, ok, err, and_then, Result-cases}
use rails.Lightning.Errors.{Failure, api_error, crash}

-- `hmac.compare_digest` of two texts, which raises on one that is not ASCII.
abbrev is_ascii : String → Bool
is_ascii s = every (λ c. leb (code c) 127) s

unfoldable pub compare_digest : String → String → Result Failure Bool
compare_digest a b =
    if is_ascii a && is_ascii b
    then ok (a == b)
    else err (crash "TypeError: comparing strings with non-ASCII characters is not supported")

abbrev missing : Failure
missing = api_error "Missing bearer token" 401 "unauthorized"

abbrev forbidden : Failure
forbidden = api_error "Invalid bearer token or insufficient scope" 403 "forbidden"

abbrev unconfigured : Failure
unconfigured = api_error "No auth tokens configured" 500 "configuration_error"

-- `token and hmac.compare_digest(supplied, token)`
abbrev pub is_token : String → String → Result Failure Bool
is_token supplied token = if truthy token then compare_digest supplied token else ok false

abbrev by_read : String → String → Bool → Bool → Result Failure Unit
by_read read_token write_token require_write matched =
    if matched && not require_write
    then ok tt
    else if not (truthy read_token) && not (truthy write_token)
    then err unconfigured
    else err forbidden

abbrev by_write : String → String → String → Bool → Bool → Result Failure Unit
by_write supplied read_token write_token require_write matched =
    if matched
    then ok tt
    else and_then (is_token supplied read_token) (by_read read_token write_token require_write)

-- The value of the Authorization header, which is empty where it is missing.
unfoldable pub require_bearer_token_scoped : String → String → String → Bool → Result Failure Unit
require_bearer_token_scoped header read_token write_token require_write =
    if not (starts_with "Bearer " header)
    then err missing
    else and_then (is_token (strip (drop 7 header)) write_token)
        (by_write (strip (drop 7 header)) read_token write_token require_write)

abbrev hidden : Failure
hidden = api_error "Not found" 404 "not_found"

abbrev admitted : Bool → Result Failure Unit
admitted matched = if not matched then err hidden else ok tt

unfoldable pub require_admin_header : String → String → Result Failure Unit
require_admin_header header admin_token =
    if not (truthy admin_token)
    then err hidden
    else if not (truthy (strip header))
    then err hidden
    else and_then (compare_digest (strip header) admin_token) admitted

compare_digest-ok : (a b : String) → compare_digest a b ≡ ok true → a ≡ b
unfolding compare_digest
compare_digest-ok a b h = ground (arith, eq_iff a b)

is_token-ok :
    (supplied token : String)
    → is_token supplied token ≡ ok true
    → (supplied ≡ token) × (truthy token ≡ true)
is_token-ok supplied token h = elim (Bool-cases (truthy token)) [
  | inl set ↦ (compare_digest-ok supplied token (rw set at h), set)
  | inr unset ↦ absurd (cc (rw unset at h))
]

-- A request that passes shows, behind `Bearer `, the write token or, if it only reads, the read token, and
-- the token that it shows is one that is configured, not the empty text.
pub bearer_is_scoped :
    (header read_token write_token : String) (require_write : Bool)
    → require_bearer_token_scoped header read_token write_token require_write ≡ ok tt
    → (starts_with "Bearer " header ≡ true)
      × (((strip (drop 7 header) ≡ write_token) × (truthy write_token ≡ true))
          ⊎ ((strip (drop 7 header) ≡ read_token)
              × (truthy read_token ≡ true)
              × (require_write ≡ false)))
unfolding require_bearer_token_scoped
bearer_is_scoped header read_token write_token require_write passed =
    elim (Bool-cases (starts_with "Bearer " header)) [
      | inr other ↦ absurd (cc (rw other at passed))
      | inl bearer ↦ elim (Result-cases (is_token supplied write_token)) [
        | inr (e, failed) ↦ absurd (cc (rw (bearer, failed) at passed))
        | inl (true, matched) ↦ (bearer, inl (is_token-ok supplied write_token matched))
        | inl (false, unmatched) ↦ elim (Result-cases (is_token supplied read_token)) [
          | inr (e, failed) ↦ absurd (cc (rw (bearer, unmatched, failed) at passed))
          | inl (matched, done) ↦ elim (Bool-cases (matched && not require_write)) [
            | inl reads ↦
                let hit : matched ≡ true = ground arith in
                let p = is_token-ok supplied read_token (rw hit at done) in
                (bearer, inr (p.0, p.1, ground arith))
            | inr fails ↦ absurd (refused (rw (bearer, unmatched, done, fails) at passed))
          ]
        ]
      ]
    ]
  where
    supplied : String
    supplied = strip (drop 7 header)

    refused :
        (if not (truthy read_token) && not (truthy write_token)
            then err unconfigured
            else err forbidden)
          ≡ ok tt
        → ⊥
    refused e = elim (Bool-cases (not (truthy read_token) && not (truthy write_token))) [
      | inl none_set ↦ cc (rw none_set at e)
      | inr set ↦ cc (rw set at e)
    ]
