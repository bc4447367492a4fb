-- ===== src/Outbound.antt =====
-- sip/router.rs: the text of the messages that the server sends on: requests with a new target, Via
-- and Contact, and the responses that it builds for the caller. The random branch is an argument.
pub mod Answer
use minghe.Prelude.{
  ℕ, ◌+◌, Bool, true, false, ◌&&◌, ◌||◌, not, List, [], ◌∷◌, ◌++◌, Option, none, some, map,
}
use minghe.Prelude.{
  ltb, leb, nat_beq, if◌then◌else◌, length, take, drop, codes, retain, ◌==◌, list_eq, is_nil,
}
use minghe.Text.{
  Text, Outcome, panics, returns, find, lines, trim, to_lowercase, starts_with, is_empty,
  take_until, split_whitespace, find_map,
}
use minghe.Parser.Header.{begins, extract_extension, extract_request_uri, ◌>>=◌}
use minghe.Parser.Fields.{extract_body, extract_uri_from_header}
use minghe.Parser.Response.{decimal, crlf, lines_text}
use minghe.Registrar.State.{RegistrarService, Registration, Transport, tls, udp}
use minghe.Registrar.Table.{lookup}
use minghe.Srtp.Sdes.{split_once}
use minghe.Sdp.{join}
use minghe.Transport.{via_token, uri_param}

-- `request.find("\r\n\r\n").unwrap_or(request.len())`, and the text before it.
abbrev cut : Option ℕ → Text → Text
cut none request = request
cut (some header_end) request = take header_end request

abbrev pub content_length : Text → Text
content_length body = codes "Content-Length: " ++ decimal (length body)

with_length : Text → Text → Text
with_length new_sdp line =
    let lower = to_lowercase line in
    if begins "content-length:" lower || begins "l:" lower then content_length new_sdp else line

-- `any` of a line that begins so.
abbrev pub has_header : Text → List Text → Bool
has_header prefix [] = false
has_header prefix (line ∷ rest) = starts_with prefix (to_lowercase line) || has_header prefix rest

abbrev ensure : Text → Text → List Text → List Text
ensure prefix line headers = if has_header prefix headers then headers else headers ++ (line ∷ [])

unfoldable pub rebuild_request_with_sdp : Text → Text → Text
unfolding with_length
rebuild_request_with_sdp request new_sdp =
    let headers = cut (find (13 ∷ 10 ∷ 13 ∷ 10 ∷ []) request) request in
    let typed =
      ensure (codes "content-type:") (codes "Content-Type: application/sdp")
        (map (with_length new_sdp) (lines headers)) in
    let measured = ensure (codes "content-length:") (content_length new_sdp) typed in
    join crlf measured ++ (crlf ++ (crlf ++ new_sdp))

-- `split(c)`: there is always a first part, here before its comma.
pub split_on : ℕ → Text → Text × List Text
split_on c [] = ([], [])
split_on c (x ∷ s) =
    let (first, rest) = split_on c s in
    if nat_beq x c then ([], first ∷ rest) else (x ∷ first, rest)

abbrev pub parts : ℕ → Text → List Text
parts c s = let (first, rest) = split_on c s in first ∷ rest

-- An option that the server does not let through.
unsupported : Text → Bool
unsupported tag =
    is_empty tag || to_lowercase tag == codes "timer" || to_lowercase tag == codes "100rel"

kept_options : Text → List Text → Option Text
kept_options name [] = none
kept_options name (tag ∷ tags) = some (name ++ (codes ": " ++ join (codes ", ") (tag ∷ tags)))

abbrev pub is_one_of : Text → List Text → Bool
is_one_of name [] = false
is_one_of name (candidate ∷ rest) = name == candidate || is_one_of name rest

named_header : Text → Text → Text → Option Text
unfolding unsupported kept_options split_on
named_header line name value =
    let lower = to_lowercase name in
    if is_one_of lower (codes "session-expires" ∷ codes "x" ∷ codes "min-se" ∷ [])
    then none
    else if is_one_of lower
        (codes "supported" ∷ codes "k" ∷ codes "require" ∷ codes "proxy-require" ∷ [])
    then kept_options name (retain (λ tag. not (unsupported tag)) (map trim (parts b',' value)))
    else some line

unfoldable pub strip_unsupported_negotiation_header : Text → Option Text
unfolding named_header
strip_unsupported_negotiation_header line = elim (split_once b':' line) [
  | none ↦ some line
  | some (name, value) ↦ named_header line (trim name) value
]

pub server_contact_uri : Text → Text → Transport → Text
server_contact_uri extension domain transport =
    codes "sip:"
    ++ (extension ++ (codes "@" ++ (domain ++ (codes ";transport=" ++ uri_param transport))))

abbrev contact_or : Option Registration → Text → Text
contact_or none uri = uri
contact_or (some reg) uri = reg.contact

pub registered_contact_uri : ℕ → Text → Text → RegistrarService → Text
unfolding server_contact_uri
registered_contact_uri now extension domain registrar =
    contact_or (lookup now extension registrar) (server_contact_uri extension domain tls)

abbrev extension_of : Option Text → Outcome (Option Text)
extension_of none = returns none
extension_of (some uri) = extract_extension uri

abbrev or_called : Outcome (Option Text) → Option Text → Outcome (Option Text)
or_called other (some ext) = returns (some ext)
or_called other none = other

unfoldable pub extract_called_extension : Text → Outcome (Option Text)
extract_called_extension request =
    extension_of (extract_request_uri request)
    >>= or_called (extract_uri_from_header request (codes "To") >>= extension_of)

tag_part : Text → Option Text
tag_part part = if begins "tag=" (trim part) then some (trim part) else none

-- The From header with the authenticated caller and the tag that it had.
unfoldable pub authenticated_from_line : Text → Text → Text
unfolding tag_part split_on
authenticated_from_line authenticated_from trimmed =
    elim (find_map tag_part (drop 1 (parts b';' trimmed))) [
      | some t ↦ codes "From: <" ++ (authenticated_from ++ (codes ">;" ++ t))
      | none ↦ codes "From: <" ++ (authenticated_from ++ codes ">")
    ]

abbrev pub contact_header : Text → Text
contact_header contact_uri = codes "Contact: <" ++ (contact_uri ++ codes ">")

abbrev pub to_list {ℓ} : {A : Type ℓ} → Option A → List A
to_list none = []
to_list (some a) = a ∷ []

module _ (contact_uri authenticated_from : Text) where
  -- One line: what is pushed, and whether it is the Contact.
  rewrite_header : Text → List Text × Bool
  unfolding authenticated_from_line strip_unsupported_negotiation_header
  rewrite_header line =
      let trimmed = trim line in
      let lower = to_lowercase trimmed in
      if begins "via:" lower || begins "v:" lower
      then ([], false)
      else if begins "route:" lower
      then ([], false)
      else if begins "record-route:" lower
      then ([], false)
      else if begins "contact:" lower || begins "m:" lower
      then (if is_empty contact_uri then ([], false) else (contact_header contact_uri ∷ [], true))
      else if begins "from:" lower || begins "f:" lower
      then (
        (if is_empty authenticated_from
              then line
              else authenticated_from_line authenticated_from trimmed)
            ∷ [],
        false,
      )
      else (to_list (strip_unsupported_negotiation_header trimmed), false)

  -- Behind the loop.
  abbrev own_contact : Bool → List Text
  own_contact saw_contact =
      if not (is_empty contact_uri) && not saw_contact then contact_header contact_uri ∷ [] else []

  -- The loop up to the first blank line, and the Contact behind it.
  rewrite_headers : Bool → List Text → List Text
  unfolding rewrite_header
  rewrite_headers saw_contact [] = own_contact saw_contact
  rewrite_headers saw_contact (line ∷ rest) =
      let (out, is_contact) = rewrite_header line in
      let further = rewrite_headers (saw_contact || is_contact) rest in
      if is_empty (trim line) then own_contact saw_contact else out ++ further

abbrev body_or_empty : Option Text → Text
body_or_empty none = []
body_or_empty (some body) = body

-- `None` stands for a first line that is no request: the text is passed on as it is.
request_line : List Text → Text → Option Text
request_line (method ∷ uri ∷ version ∷ []) target_uri =
    if begins "SIP/2.0" method
    then none
    else some (method ++ (codes " " ++ (target_uri ++ (codes " " ++ version))))
request_line words target_uri = none

abbrev rewritten : Text → Text → Text → Text → Text → Transport → Text → List Text → Text
rewritten branch first request domain contact_uri transport authenticated_from rest =
    let via =
      codes "Via: SIP/2.0/"
      ++ (via_token transport ++ (codes " " ++ (domain ++ (codes ";branch=" ++ branch)))) in
    join crlf (first ∷ via ∷ rewrite_headers contact_uri authenticated_from false rest)
    ++ (crlf ++ (crlf ++ body_or_empty (extract_body request)))

unfoldable pub build_outbound_request_with_from :
    Text → Text → Text → Text → Text → Text → Transport → Text
unfolding rewrite_headers request_line
build_outbound_request_with_from branch request target_uri domain contact_uri authenticated_from
      transport =
    elim (lines request) [
      | [] ↦ request
      | first_line ∷ rest ↦ elim (request_line (split_whitespace first_line) target_uri) [
        | none ↦ request
        | some first ↦
            rewritten branch first request domain contact_uri transport authenticated_from rest
      ]
    ]

pub build_outbound_request : Text → Text → Text → Text → Text → Transport → Text
unfolding build_outbound_request_with_from
build_outbound_request branch request target_uri domain contact_uri transport =
    build_outbound_request_with_from branch request target_uri domain contact_uri [] transport
