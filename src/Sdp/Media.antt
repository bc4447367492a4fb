-- ===== src/Sdp/Media.antt =====
-- sip/router.rs: the mending of an answer's description for strict clients, and the media address
-- that a description names. The parsing of an IP address and the making of a socket address are
-- parameters, since they belong to the standard library.
use minghe.Prelude.{ℕ, ◌^◌, Bool, false, ◌&&◌, ◌||◌, not, List, [], ◌∷◌, ◌++◌, Option, none, some}
use minghe.Prelude.{ltb, nat_beq, if◌then◌else◌, drop, codes, retain, is_nil, ◌==◌, list_eq}
use mathlib.Core.List.{reverse}
use minghe.Text.{Text, lines, trim, to_lowercase, split_whitespace, take_until, parse_uint}
use minghe.Parser.Header.{begins, then_parse}
use minghe.Parser.Response.{decimal, crlf}

-- `trim_end_matches(c)`
abbrev pub skip_while : ℕ → Text → Text
skip_while c [] = []
skip_while c (x ∷ s) = let rest = skip_while c s in if nat_beq x c then rest else x ∷ s

abbrev pub trim_end_matches : ℕ → Text → Text
trim_end_matches c s = reverse (skip_while c (reverse s))

-- `trim_end_matches('\n').trim_end_matches('\r')`
abbrev pub without_end : Text → Text
without_end sdp = trim_end_matches 13 (trim_end_matches 10 sdp)

-- `rsplit('\n').next()`
abbrev pub last_line : Text → Text
last_line s = reverse (take_until (λ c. nat_beq c 10) (reverse s))

pub ensure_answer_crypto_not_last_line : Text → Text
ensure_answer_crypto_not_last_line sdp =
    let trimmed = without_end sdp in
    if begins "a=crypto:" (to_lowercase (trim (last_line trimmed)))
    then trimmed ++ (crlf ++ (codes "a=ptime:20" ++ crlf))
    else sdp

-- The payload types that the loop collects: those of the audio lines and those with a mapping.
pub record Payloads : Type 0 where
  pub in_audio : Bool
  pub audio_pts : List ℕ
  pub rtpmap_pts : List ℕ

abbrev add_some : Option ℕ → List ℕ → List ℕ
add_some none pts = pts
add_some (some n) pts = pts ++ (n ∷ [])

abbrev parse_all : List Text → List ℕ → List ℕ
parse_all [] pts = pts
parse_all (word ∷ words) pts = parse_all words (add_some (parse_uint (2 ^ 16) word) pts)

first_word : List Text → Option Text
first_word [] = none
first_word (word ∷ words) = some word

audio_formats : List Text → List ℕ → List ℕ
audio_formats (media ∷ port ∷ proto ∷ format ∷ formats) pts = parse_all (format ∷ formats) pts
audio_formats words pts = pts

abbrev entered : Text → Payloads → Payloads
entered line p = if begins "m=" line then record p { in_audio = begins "m=audio" line } else p

mapped : Text → Payloads → Payloads
unfolding first_word
mapped line p =
    let rest = drop 9 (trim line) in
    if p.in_audio && begins "a=rtpmap:" (trim line)
    then record p {
      rtpmap_pts = add_some (then_parse (2 ^ 16) (first_word (split_whitespace rest))) p.rtpmap_pts;
    }
    else p

offered : Text → Payloads → Payloads
unfolding audio_formats
offered line p =
    if p.in_audio && begins "m=audio" line
    then record p { audio_pts = audio_formats (split_whitespace line) p.audio_pts }
    else p

pub collect : Payloads → List Text → Payloads
unfolding mapped offered
collect p [] = p
collect p (line ∷ rest) = collect (offered line (mapped line (entered line p))) rest

abbrev pub contains : ℕ → List ℕ → Bool
contains n [] = false
contains n (x ∷ xs) = nat_beq n x || contains n xs

pub missing_rtpmap : Text → List ℕ
unfolding collect
missing_rtpmap sdp =
    let p = collect (record { in_audio = false; audio_pts = []; rtpmap_pts = [] }) (lines sdp) in
    retain (λ pt. ltb 95 pt && not (contains pt p.rtpmap_pts)) p.audio_pts

abbrev pub rtpmap_lines : List ℕ → Text
rtpmap_lines [] = []
rtpmap_lines (pt ∷ pts) =
    crlf ++ (codes "a=rtpmap:" ++ (decimal pt ++ (codes " unknown/8000" ++ rtpmap_lines pts)))

pub fill_missing_rtpmap : Text → Text
unfolding missing_rtpmap
fill_missing_rtpmap sdp =
    let missing = missing_rtpmap sdp in
    if is_nil missing then sdp else without_end sdp ++ (rtpmap_lines missing ++ crlf)

-- `IpAddr::from_str` and `SocketAddr::new`
pub record Addresses : Type 0 where
  pub parse_ip : Text → Option Text
  pub socket_addr : Text → ℕ → Text

pub record AudioAddr : Type 0 where
  pub session_addr : Option Text
  pub audio_addr : Option Text
  pub audio_port : Option ℕ
  pub in_audio : Bool

-- `c=IN IP4 <host>`
connection : List Text → AudioAddr → AudioAddr
connection (net ∷ kind ∷ host ∷ rest) a =
    if to_lowercase net == codes "in"
    then (if a.in_audio
        then record a { audio_addr = some host }
        else record a { session_addr = some host })
    else a
connection words a = a

non_zero : Option ℕ → Option ℕ
non_zero none = none
non_zero (some port) = if nat_beq port 0 then none else some port

abbrev second_of : List Text → Option Text
second_of [] = none
second_of (first ∷ []) = none
second_of (first ∷ second ∷ rest) = some second

addr_line : Text → AudioAddr → AudioAddr
unfolding connection non_zero
addr_line line a =
    let trimmed = trim line in
    let opened = record a { in_audio = begins "m=audio" trimmed } in
    if begins "c=" trimmed
    then connection (split_whitespace (drop 2 trimmed)) a
    else if begins "m=" trimmed
    then (if begins "m=audio" trimmed
        then record opened {
          audio_port = non_zero (then_parse (2 ^ 16) (second_of (split_whitespace trimmed)));
        }
        else opened)
    else a

pub addr_lines : AudioAddr → List Text → AudioAddr
unfolding addr_line
addr_lines a [] = a
addr_lines a (line ∷ rest) = addr_lines (addr_line line a) rest

abbrev or_session : Option Text → Option Text → Option Text
or_session none other = other
or_session (some addr) other = some addr

abbrev made : Addresses → Option ℕ → Option Text → Option Text
made addresses none host = none
made addresses (some port) none = none
made addresses (some port) (some ip) = some (addresses.socket_addr ip port)

abbrev host_ip : Addresses → Option Text → Option Text
host_ip addresses none = none
host_ip addresses (some host) = addresses.parse_ip (take_until (λ c. nat_beq c b'/') host)

unfoldable pub extract_audio_media_addr_from_sdp : Addresses → Text → Option Text
unfolding addr_lines
extract_audio_media_addr_from_sdp addresses sdp =
    let a =
      addr_lines
        (record { session_addr = none; audio_addr = none; audio_port = none; in_audio = false })
        (lines sdp) in
    made addresses a.audio_port (host_ip addresses (or_session a.audio_addr a.session_addr))
