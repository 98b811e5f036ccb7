-- ===== src/Safe/Urls.antt =====
-- The addresses of the API (src/lib/safe.ts, `normalizeUrlPathname`, `splitUrlPath`, `joinUrlPath`
-- and the functions that build addresses with them). The browser's `URL` is a record of functions.
pub mod Segments
pub mod Tests
use Prim.Native.Char.{code}
use distributed_job_platform.Base.{
  ℕ, String, Bool, true, false, not, ◌||◌, ◌&&◌, ◌==◌, List, [], ◌∷◌, ◌++◌, Option, none, some,
  keep, truthy, or_text, trim, append, str_eq, split_by, if◌then◌else◌,
}

abbrev pub is_slash : ℕ → Bool
is_slash n = n == 47

-- `replace(/^\/+/, "")` and `replace(/\/+$/, "")`.
pub strip_leading : String → String
strip_leading String.[] = String.[]
strip_leading (String.◌∷◌ c s) = if is_slash (code c) then strip_leading s else String.◌∷◌ c s

pub strip_trailing : String → String
strip_trailing String.[] = String.[]
strip_trailing (String.◌∷◌ c s) =
    let rest = strip_trailing s in
    if is_slash (code c) && not (truthy rest) then String.[] else String.◌∷◌ c rest

abbrev pub starts_with_slash : String → Bool
starts_with_slash String.[] = false
starts_with_slash (String.◌∷◌ c s) = is_slash (code c)

pub normalize_url_pathname : String → String
normalize_url_pathname pathname =
    if not (truthy pathname) || str_eq pathname "/"
    then "/"
    else (let trimmed = strip_trailing pathname in
        if starts_with_slash trimmed then trimmed else append "/" trimmed)

-- The text before the first character with a code, and the text from it on.
pub before : ℕ → String → String
before k String.[] = String.[]
before k (String.◌∷◌ c s) =
    let rest = before k s in if code c == k then String.[] else String.◌∷◌ c rest

pub from_on : ℕ → String → String
from_on k String.[] = String.[]
from_on k (String.◌∷◌ c s) = if code c == k then String.◌∷◌ c s else from_on k s

pub record UrlPath : Type 0 where
  pub pathname : String
  pub search : String

pub split_url_path : String → UrlPath
split_url_path path =
    let raw = trim path in
    if not (truthy raw)
    then record { pathname = "/"; search = "" }
    else (let without_hash = before 35 raw in
        if not (truthy (from_on 63 without_hash))
        then record { pathname = without_hash; search = "" }
        else record {
          pathname = or_text (before 63 without_hash) "/";
          search = from_on 63 without_hash;
        })

abbrev pub segments : String → List String
segments path = keep truthy (split_by is_slash path)

-- `/${segments.join("/")}`.
pub join_segments : List String → String
join_segments [] = ""
join_segments (x ∷ xs) = append "/" (append x (join_segments xs))

abbrev pub ends_with : List String → String → Bool
ends_with [] x = false
ends_with (y ∷ []) x = str_eq y x
ends_with (y ∷ z ∷ zs) x = ends_with (z ∷ zs) x

-- The loop that shifts the next segments while the first equals the last of the base.
pub shift_repeats : List String → List String → List String
shift_repeats base [] = []
shift_repeats base (x ∷ xs) =
    let rest = shift_repeats base xs in if ends_with base x then rest else x ∷ xs

abbrev pub root_or : List String → String
root_or [] = "/"
root_or (x ∷ xs) = join_segments (x ∷ xs)

abbrev pub joined : List String → List String → String
joined base [] = root_or base
joined base (x ∷ xs) = root_or (base ++ shift_repeats base (x ∷ xs))

pub join_url_path : String → String → String
join_url_path base_path next_path =
    joined (segments (strip_leading (normalize_url_pathname base_path)))
      (segments (strip_leading (trim next_path)))

-- `URL`: `parse` is the constructor, none where it throws.
pub record UrlApi (U : Type 0) : Type 0 where
  pub parse : String → Option U
  pub protocol : U → String
  pub pathname : U → String
  pub set_protocol : String → U → U
  pub set_pathname : String → U → U
  pub set_search : String → U → U
  pub set_hash : String → U → U
  pub set_param : String → String → U → U
  pub to_text : U → String

-- `replace(/\/$/, "")`.
pub drop_slash : String → String
drop_slash String.[] = String.[]
drop_slash (String.◌∷◌ c s) =
    let rest = drop_slash s in
    if is_slash (code c) && not (truthy s) then String.[] else String.◌∷◌ c rest

module _ {U : Type 0} (api : UrlApi U) where
  -- The protocol after the first test is read again by the second.
  http_protocol : U → U
  http_protocol u =
      let first = if str_eq (api.protocol u) "ws:" then api.set_protocol "http:" u else u in
      if str_eq (api.protocol first) "wss:" then api.set_protocol "https:" first else first

  normalized : U → Option String
  normalized u =
      if str_eq (api.protocol u) "http:" || str_eq (api.protocol u) "https:"
      then (let bare = api.set_search "" (api.set_hash "" u) in
          some (
            drop_slash
              (api.to_text (api.set_pathname (normalize_url_pathname (api.pathname bare)) bare))))
      else none

  abbrev parsed_base : Option U → Option String
  unfolding http_protocol normalized
  parsed_base none = none
  parsed_base (some u) = normalized (http_protocol u)

  pub normalize_base_url : String → Option String
  normalize_base_url value =
      let raw = trim value in
      let parsed = parsed_base (api.parse raw) in if truthy raw then parsed else none

  with_path : UrlPath → U → U
  with_path next u = api.set_hash "" (
      api.set_search next.search
        (api.set_pathname (join_url_path (api.pathname u) next.pathname) u))

  abbrev api_text : String → Option U → Option String
  unfolding with_path
  api_text path none = none
  api_text path (some u) = some (api.to_text (with_path (split_url_path path) u))

  abbrev parse_base : Option String → Option U
  parse_base none = none
  parse_base (some base_url) = if truthy base_url then api.parse base_url else none

  pub build_api_url : Option String → String → Option String
  build_api_url base_url path = api_text path (parse_base base_url)

  stream_protocol : Bool → U → U
  stream_protocol false u = u
  stream_protocol true u =
      api.set_protocol (if str_eq (api.protocol u) "https:" then "wss:" else "ws:") u

  with_token : String → U → U
  with_token token u = if truthy (trim token) then api.set_param "token" (trim token) u else u

  abbrev stream_text : String → String → Bool → Option U → Option String
  unfolding with_path stream_protocol with_token
  stream_text path token is_socket none = none
  stream_text path token is_socket (some u) = some (
      api.to_text
        (with_token token (with_path (split_url_path path) (stream_protocol is_socket u))))

  -- With `protocol: "ws"` or without.
  pub build_stream_url : Option String → String → String → Bool → Option String
  build_stream_url base_url path token is_socket =
      stream_text path token is_socket (parse_base base_url)
