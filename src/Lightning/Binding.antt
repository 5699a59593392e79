-- ===== src/Lightning/Binding.antt =====
-- packages/lightning/src/binding.ts: the canonical form of a value, the parameters of a binding, and
-- the hash that an invoice's description must commit to.
pub mod Hash
use arcagentx.Prelude.{
  ℕ, ◌+◌, Bool, true, false, ◌&&◌, ◌||◌, not, Option, none, some, List, [], ◌∷◌, ◌++◌, map, Result,
  ok, err, ◌>>=◌, ◌>>◌, require, from_option, leb, ◌==◌, if◌then◌else◌, all, any,
}
use arcagentx.Prelude.Text.{Text, codes, text_eq, cut, to_lower}
use arcagentx.Lightning.Json.{
  Json, Items, Members, Platform, Url, null, boolean, whole, other_number, text, array, object, nil,
  item, done, member, get, is_text, text_lt,
}

pub data BindingError : Type 0 where
  lone_surrogate bad_url bad_profile bad_params bad_header bad_metadata bad_method bad_header_value
        bad_tool bad_arguments bad_meta not_json :
      BindingError

pub data BindingParams : Type 0 where
  http_params : List Text → BindingParams
  mcp_params : Text → List Text → BindingParams

abbrev is_high : ℕ → Bool
is_high c = leb 0xd800 c && leb c 0xdbff

abbrev is_low : ℕ → Bool
is_low c = leb 0xdc00 c && leb c 0xdfff

-- Whether a surrogate stands alone; the flag says that the unit before is a high one.
unfoldable pub has_lone : Bool → Text → Bool
has_lone high [] = high
has_lone high (c ∷ s) =
    let rest = has_lone (is_high c) s in (high && not (is_low c)) || (not high && is_low c) || rest

unfoldable pub check_string : Text → Result BindingError (Unit {0})
check_string s = require (not (has_lone false s)) lone_surrogate

-- `keys.sort()`, on members whose values are written already.
unfoldable pub insert_key : Text × Text → List (Text × Text) → List (Text × Text)
insert_key m [] = m ∷ []
insert_key m (n ∷ ms) =
    let later = insert_key m ms in if text_lt m.0 n.0 then m ∷ n ∷ ms else n ∷ later

unfoldable pub sort_keys : List (Text × Text) → List (Text × Text)
sort_keys [] = []
sort_keys (m ∷ ms) = insert_key m (sort_keys ms)

-- `parts.join(",")`.
unfoldable pub join_comma : List Text → Text
join_comma [] = []
join_comma (t ∷ []) = t
join_comma (t ∷ u ∷ ts) = t ++ b',' ∷ join_comma (u ∷ ts)

abbrev colon : Platform → Text × Text → Text
colon p m = p.stringify (text m.0) ++ b':' ∷ m.1

unfoldable mutual
  pub jcs : Platform → Json → Result BindingError Text
  jcs p null = ok (p.stringify null)
  jcs p (boolean b) = ok (p.stringify (boolean b))
  jcs p (whole n) = ok (p.stringify (whole n))
  jcs p (other_number n) = ok (p.stringify (other_number n))
  jcs p (text s) = check_string s >> ok (p.stringify (text s))
  jcs p (array js) = jcs_items p js >>= λ ts. ok (b'[' ∷ join_comma ts ++ b']' ∷ [])
  jcs p (object m) =
      jcs_members p m >>= λ ms. ok (b'{' ∷ join_comma (map (colon p) (sort_keys ms)) ++ b'}' ∷ [])

  pub jcs_items : Platform → Items → Result BindingError (List Text)
  jcs_items p nil = ok []
  jcs_items p (item j js) = jcs p j >>= λ t. jcs_items p js >>= λ ts. ok (t ∷ ts)

  -- Keys are compared before they are quoted; the pair holds the key as it is.
  pub jcs_members : Platform → Members → Result BindingError (List (Text × Text))
  jcs_members p done = ok []
  jcs_members p (member k j m) =
      check_string k >> jcs p j >>= λ t. jcs_members p m >>= λ ms. ok ((k, t) ∷ ms)

-- A member of a token: `[!#$%&'*+\-.^_`|~0-9]`, and the small letters.
unfoldable pub is_token_char : ℕ → Bool
is_token_char c =
    (leb b'a' c && leb c b'z')
    || (leb b'0' c && leb c b'9')
    || any (λ d. d == c) (codes "!#$%&'*+-.^_`|~")

-- `TOKEN`.
unfoldable pub is_token : Text → Bool
is_token s = not (text_eq s []) && all is_token_char s

-- `/^[a-z][a-z0-9+.-]*:\/\/[^/?#]*@/i`.
unfoldable pub before_path : Text → Text
before_path [] = []
before_path (c ∷ s) =
    let rest = before_path s in if any (λ d. d == c) (codes "/?#") then [] else c ∷ rest

abbrev is_letter : ℕ → Bool
is_letter c = (leb b'a' c && leb c b'z') || (leb b'A' c && leb c b'Z')

abbrev is_scheme_char : ℕ → Bool
is_scheme_char c = is_letter c || (leb b'0' c && leb c b'9') || any (λ d. d == c) (codes "+.-")

unfoldable pub is_scheme : Text → Bool
is_scheme [] = false
is_scheme (c ∷ s) = is_letter c && all is_scheme_char s

unfoldable pub user_after : Text × Text → Bool
user_after (scheme, c ∷ d ∷ s) =
    is_scheme scheme && c == b'/' && d == b'/' && any (λ e. e == b'@') (before_path s)
user_after (scheme, short) = false

unfoldable pub names_user : Text → Bool
names_user url = elim (cut b':' url) [ none ↦ false | some parts ↦ user_after parts ]

unfoldable pub check_url : Platform → Text → List Text → Result BindingError (Unit {0})
check_url p url schemes = do
  require (not (text_eq url []) && all (λ c. leb 0x21 c && leb c 0x7e) url) bad_url
  u ← from_option (p.parse_url url) bad_url
  require (any (λ s. text_eq s u.protocol) schemes) bad_url
  require (text_eq u.username [] && text_eq u.password [] && not (names_user url)) bad_url
  require (not (any (λ c. c == b'#') url)) bad_url

-- The loop over `headers`, with the name before.
unfoldable pub check_headers : Option Text → Items → Result BindingError (List Text)
check_headers last nil = ok []
check_headers none (item (text h) js) = do
  require (is_token h) bad_header
  require (not (text_eq h (codes "payment-signature"))) bad_header
  hs ← check_headers (some h) js
  ok (h ∷ hs)
check_headers (some last) (item (text h) js) = do
  require (is_token h) bad_header
  require (not (text_eq h (codes "payment-signature"))) bad_header
  require (text_lt last h) bad_header
  hs ← check_headers (some h) js
  ok (h ∷ hs)
check_headers last (item other js) = err bad_header

-- The checks of one name of metadata.
unfoldable pub check_name : Text → Result BindingError (Unit {0})
check_name m = do
  require (not (text_eq m [])) bad_metadata
  check_string m
  require (not (text_eq m (codes "x402/payment") || text_eq m (codes "progressToken"))) bad_metadata

-- The loop over `metadata`, with the name before.
unfoldable pub check_metadata : Option Text → Items → Result BindingError (List Text)
check_metadata last nil = ok []
check_metadata none (item (text m) js) = do
  check_name m
  ms ← check_metadata (some m) js
  ok (m ∷ ms)
check_metadata (some last) (item (text m) js) = do
  check_name m
  require (text_lt last m) bad_metadata
  ms ← check_metadata (some m) js
  ok (m ∷ ms)
check_metadata last (item other js) = err bad_metadata

unfoldable pub count_members : Members → ℕ
count_members done = 0
count_members (member k j m) = count_members m + 1

unfoldable pub items_or : Option Json → BindingError → Result BindingError Items
items_or (some (array js)) e = ok js
items_or other e = err e

unfoldable pub text_or : Option Json → BindingError → Result BindingError Text
text_or (some (text s)) e = ok s
text_or other e = err e

abbrev has : Text → Members → Bool
has key m = elim (get key m) [ none ↦ false | some j ↦ true ]

abbrev pub http_1 : Text
http_1 = codes "http:1"

abbrev pub mcp_1 : Text
mcp_1 = codes "mcp:1"

abbrev server_schemes : List Text
server_schemes =
    codes "http:" ∷ codes "https:" ∷ codes "ws:" ∷ codes "wss:" ∷ codes "stdio:" ∷ codes "urn:" ∷ []

unfoldable pub check_http : Members → Result BindingError BindingParams
check_http m = do
  require (count_members m == 1 && has (codes "headers") m) bad_params
  js ← items_or (get (codes "headers") m) bad_header
  hs ← check_headers none js
  ok (http_params hs)

unfoldable pub check_mcp : Platform → Members → Result BindingError BindingParams
check_mcp p m = do
  require (count_members m == 2 && has (codes "metadata") m && has (codes "server") m) bad_params
  server ← text_or (get (codes "server") m) bad_url
  check_url p server server_schemes
  js ← items_or (get (codes "metadata") m) bad_metadata
  ms ← check_metadata none js
  ok (mcp_params server ms)

-- `checkParams`: what it asserts is what it returns.
unfoldable pub check_params :
    Platform → Option Json → Option Json → Result BindingError BindingParams
check_params p profile (some (object m)) =
    if is_text http_1 profile
    then check_http m
    else if is_text mcp_1 profile
    then check_mcp p m
    else err bad_profile
check_params p profile other =
    if is_text http_1 profile || is_text mcp_1 profile then err bad_params else err bad_profile
