-- ===== src/Registrar/Digest.antt =====
-- sip/registrar.rs: the Authorization header and the digest response. The hash function `md5_hex`
-- computes with the crates `md5` and `hex`: it is an argument.
use minghe.Prelude.{◌+◌, Bool, false, ◌&&◌, ◌||◌, not, List, [], ◌∷◌, ◌++◌, Option, none, some}
use minghe.Prelude.{nat_beq, if◌then◌else◌, drop, take, codes, ◌==◌, list_eq}
use mathlib.Core.List.{reverse}
use minghe.Text.{Text, find, trim, to_lowercase, starts_with, is_empty}

pub record DigestParams : Type 0 where
  pub username : Text
  pub realm : Text
  pub nonce : Text
  pub uri : Text
  pub response : Text
  pub qop : Option Text
  pub nc : Option Text
  pub cnonce : Option Text

-- A parameter is kept if it is not blank; `current` is the parameter so far.
push_param : Text → List Text → List Text
push_param current params = if is_empty (trim current) then params else current ∷ params

split_from : Bool → Text → Text → List Text
unfolding push_param
split_from in_quotes current [] = push_param current []
split_from in_quotes current (ch ∷ rest) =
    let quote = split_from (not in_quotes) (current ++ (ch ∷ [])) rest in
    let comma = push_param current (split_from in_quotes [] rest) in
    let on = split_from in_quotes (current ++ (ch ∷ [])) rest in
    if nat_beq ch b'"' then quote else if nat_beq ch b',' && not in_quotes then comma else on

unfoldable pub split_digest_params : Text → List Text
unfolding split_from
split_digest_params input = split_from false [] input

trim_quotes_start : Text → Text
trim_quotes_start [] = []
trim_quotes_start (c ∷ s) = let rest = trim_quotes_start s in if nat_beq c b'"' then rest else c ∷ s

-- `trim_matches('"')`
trim_quotes : Text → Text
unfolding trim_quotes_start
trim_quotes s = reverse (trim_quotes_start (reverse (trim_quotes_start s)))

set_param : Text → Text → DigestParams → DigestParams
set_param key val p =
    if key == codes "username"
    then record p { username = val }
    else if key == codes "realm"
    then record p { realm = val }
    else if key == codes "nonce"
    then record p { nonce = val }
    else if key == codes "uri"
    then record p { uri = val }
    else if key == codes "response"
    then record p { response = val }
    else if key == codes "qop"
    then record p { qop = some val }
    else if key == codes "nc"
    then record p { nc = some val }
    else if key == codes "cnonce"
    then record p { cnonce = some val }
    else p

read_param : DigestParams → Text → DigestParams
unfolding trim_quotes set_param
read_param p param = elim (find (codes "=") (trim param)) [
  | none ↦ p
  | some i ↦
      set_param (to_lowercase (trim (take i (trim param))))
        (trim_quotes (trim (drop (i + 1) (trim param)))) p
]

read_params : DigestParams → List Text → DigestParams
unfolding read_param
read_params p [] = p
read_params p (param ∷ rest) = read_params (read_param p param) rest

abbrev no_params : DigestParams
no_params = record {
  username = [];
  realm = [];
  nonce = [];
  uri = [];
  response = [];
  qop = none;
  nc = none;
  cnonce = none;
}

strip_digest : Text → Text
strip_digest value = if starts_with (codes "Digest") value then trim (drop 6 value) else value

unfoldable pub parse_authorization : Text → Option DigestParams
unfolding strip_digest split_digest_params read_params
parse_authorization header_value =
    let p = read_params no_params (split_digest_params (strip_digest (trim header_value))) in
    if is_empty p.username || is_empty p.nonce || is_empty p.response then none else some p

abbrev or_text : Text → Option Text → Text
or_text d none = d
or_text d (some s) = s

abbrev colon : Text
colon = codes ":"

is_auth_qop : Option Text → Bool
is_auth_qop none = false
is_auth_qop (some qop) = qop == codes "auth"

module _ (md5_hex : Text → Text) where
  -- The response that the server expects, by RFC 2617 with quality `auth` and by RFC 2069 without.
  unfoldable pub expected_response : DigestParams → Text → Text → Text
  unfolding is_auth_qop
  expected_response p password method =
      let ha1 = md5_hex (p.username ++ colon ++ p.realm ++ colon ++ password) in
      let ha2 = md5_hex (method ++ colon ++ p.uri) in
      if is_auth_qop p.qop
      then md5_hex (
          ha1
          ++ colon
          ++ p.nonce
          ++ colon
          ++ or_text (codes "00000001") p.nc
          ++ colon
          ++ or_text [] p.cnonce
          ++ codes ":auth:"
          ++ ha2)
      else md5_hex (ha1 ++ colon ++ p.nonce ++ colon ++ ha2)

  unfoldable pub validate_digest : DigestParams → Text → Text → Bool
  validate_digest p password method =
      to_lowercase (expected_response p password method) == to_lowercase p.response
