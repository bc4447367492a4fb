-- ===== src/Outbound/Answer.antt =====
-- sip/router.rs, `build_forwarded_invite_response`: the response for the caller, from the headers of
-- the caller's INVITE and the To of the callee's response.
use minghe.Prelude.{ℕ, Bool, ◌&&◌, ◌||◌, List, [], ◌∷◌, ◌++◌, Option, none, some, map}
use minghe.Prelude.{ltb, leb, if◌then◌else◌, length, codes}
use minghe.Text.{Text, lines, trim, to_lowercase, starts_with, is_empty}
use minghe.Parser.Response.{decimal, crlf, lines_text}
use minghe.Srtp.Sdes.{split_once}

-- The trimmed lines up to the first blank one.
abbrev pub head_lines : List Text → List Text
head_lines [] = []
head_lines (line ∷ rest) =
    let further = head_lines rest in if is_empty line then [] else line ∷ further

abbrev pub has_name : Text → Option Text → Text → Bool
has_name name none line = starts_with (to_lowercase name ++ codes ":") (to_lowercase line)
has_name name (some compact) line =
    starts_with (to_lowercase name ++ codes ":") (to_lowercase line)
    || starts_with (to_lowercase compact ++ codes ":") (to_lowercase line)

abbrev pub named_lines : Text → Option Text → List Text → List Text
named_lines name compact [] = []
named_lines name compact (line ∷ rest) =
    let further = named_lines name compact rest in
    if has_name name compact line then line ∷ further else further

pub header_lines : Text → Text → Option Text → List Text
header_lines msg name compact = named_lines name compact (head_lines (map trim (lines msg)))

abbrev pub first_of {ℓ} : {A : Type ℓ} → List A → Option A
first_of [] = none
first_of (x ∷ xs) = some x

pub first_header_line : Text → Text → Option Text → Option Text
unfolding header_lines
first_header_line msg name compact = first_of (header_lines msg name compact)

abbrev with_crlf : Option Text → Text
with_crlf none = []
with_crlf (some line) = line ++ crlf

abbrev pub or_text : Option Text → Text → Text
or_text none other = other
or_text (some text) other = text

unfoldable pub build_forwarded_invite_response : Text → Text → ℕ → Text → Text → Text → Text
unfolding header_lines first_header_line
build_forwarded_invite_response original_invite callee_response status_code reason contact_uri
      body =
    let own = first_header_line original_invite in
    let to = or_text (first_header_line callee_response (codes "To") (some (codes "t"))) (
      or_text (own (codes "To") (some (codes "t")))
        (codes "To: <" ++ (contact_uri ++ codes ">"))) in
    codes "SIP/2.0 "
    ++ (decimal status_code
        ++ (codes " "
            ++ (reason
                ++ (crlf
                    ++ (lines_text (header_lines original_invite (codes "Via") (some (codes "v")))
                        ++ (with_crlf (own (codes "From") (some (codes "f")))
                            ++ (to
                                ++ (crlf
                                    ++ (with_crlf (own (codes "Call-ID") (some (codes "i")))
                                        ++ (with_crlf (own (codes "CSeq") none)
                                            ++ ((if leb 200 status_code && ltb status_code 300
                                                  then codes "Contact: <"
                                                    ++ (contact_uri ++ (codes ">" ++ crlf))
                                                  else [])
                                                ++ ((if is_empty body
                                                      then []
                                                      else codes "Content-Type: application/sdp"
                                                        ++ crlf)
                                                    ++ (codes "Content-Length: "
                                                        ++ (decimal (length body)
                                                            ++ (crlf
                                                            ++ (crlf ++ body))))))))))))))))

-- `splitn(3, ' ').nth(2)`
abbrev behind_first : Option (Text × Text) → Option Text
behind_first none = none
behind_first (some (before, behind)) = some behind

abbrev third : Option Text → Option Text
third none = none
third (some behind) = behind_first (split_once b' ' behind)

abbrev shown : Option Text → Text
shown none = codes "Unknown"
shown (some reason) = if is_empty (trim reason) then codes "Unknown" else trim reason

pub reason_phrase : Text → Text
unfolding split_once
reason_phrase response = elim (lines response) [
  | [] ↦ codes "Unknown"
  | line ∷ rest ↦ shown (third (behind_first (split_once b' ' line)))
]
