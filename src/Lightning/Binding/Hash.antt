-- ===== src/Lightning/Binding/Hash.antt =====
-- packages/lightning/src/binding.ts: the object that stands for a request, and its hash.
use arcagentx.Prelude.{
  ℕ, Bool, ◌&&◌, ◌||◌, not, Option, none, some, List, [], ◌∷◌, Result, ok, err, ◌>>=◌, ◌>>◌,
  require, leb, ◌==◌, if◌then◌else◌, all, reverse,
}
use arcagentx.Prelude.Text.{Text, codes, text_eq}
use arcagentx.Lightning.Json.{
  Json, Items, Members, Platform, text, array, object, nil, item, done, member, get,
}
use arcagentx.Lightning.Binding.{
  BindingError, bad_method, bad_header_value, bad_tool, bad_arguments, bad_meta, BindingParams,
  http_params, mcp_params, is_token_char, check_url, check_params, http_1, mcp_1, jcs,
}

pub record HttpRequestForBinding : Type 0 where
  pub method : Text
  pub url : Text
  pub body : Option (List ℕ)
  pub header : Text → Option Text

pub record McpCallForBinding : Type 0 where
  pub name : Text
  pub arguments : Option Json
  pub meta : Option Json

unfoldable pub texts : List Text → Items
texts [] = nil
texts (t ∷ ts) = item (text t) (texts ts)

-- The parameters as the value that a challenge carries.
unfoldable pub params_json : BindingParams → Json
params_json (http_params headers) = object (member (codes "headers") (array (texts headers)) done)
params_json (mcp_params server metadata) = object (
    member (codes "server") (text server) (member (codes "metadata") (array (texts metadata)) done))

unfoldable pub profile_of : BindingParams → Text
profile_of (http_params headers) = http_1
profile_of (mcp_params server metadata) = mcp_1

-- `sha256hex`, of parts that are joined.
unfoldable pub sha256hex : Platform → List ℕ → Text
sha256hex p bytes = p.hex (p.sha256 bytes)

unfoldable pub strip_blank : Text → Text
strip_blank [] = []
strip_blank (c ∷ s) = let rest = strip_blank s in if c == 32 || c == 9 then rest else c ∷ s

unfoldable pub header_value : Text → Result BindingError Text
header_value v =
    let t = reverse (strip_blank (reverse (strip_blank v))) in
    if all (λ c. leb 0x20 c && leb c 0x7e) t then ok t else err bad_header_value

-- `{ name, valueHash }`.
unfoldable pub named_hash : Text → Text → Json
named_hash name hash =
    object (member (codes "name") (text name) (member (codes "valueHash") (text hash) done))

unfoldable pub header_hash : Platform → Option Text → Result BindingError Text
header_hash p none = ok (sha256hex p (0 ∷ []))
header_hash p (some v) = header_value v >>= λ t. ok (sha256hex p (1 ∷ p.utf8 t))

-- The map over `params.headers`.
unfoldable pub header_hashes :
    Platform → HttpRequestForBinding → List Text → Result BindingError Items
header_hashes p req [] = ok nil
header_hashes p req (name ∷ names) = do
  hash ← header_hash p (req.header name)
  rest ← header_hashes p req names
  ok (item (named_hash name hash) rest)

abbrev body_of : Option (List ℕ) → List ℕ
body_of none = []
body_of (some bytes) = bytes

abbrev is_method_char : ℕ → Bool
is_method_char c = is_token_char c || (leb b'A' c && leb c b'Z')

-- The hash of the canonical form.
unfoldable pub hash_of : Platform → Json → Result BindingError Text
hash_of p binding = jcs p binding >>= λ t. ok (sha256hex p (p.utf8 t))

-- `httpBinding`, its `requestHash`.
unfoldable pub http_binding :
    Platform → HttpRequestForBinding → BindingParams → List Text → Result BindingError Text
http_binding p req params headers = do
  checked ← check_params p (some (text http_1)) (some (params_json params))
  check_url p req.url (codes "http:" ∷ codes "https:" ∷ [])
  require (not (text_eq req.method []) && all is_method_char req.method) bad_method
  hashes ← header_hashes p req headers
  hash_of p (
      object (
        member (codes "domain") (text (codes "x402:exact:lnbtc:bolt11:http:1")) (
          member (codes "method") (text req.method) (
            member (codes "url") (text req.url) (
              member (codes "bodyHash") (text (sha256hex p (body_of req.body)))
                (member (codes "headers") (array hashes) done))))))

-- `value === undefined ? {} : value`, if it is an object.
unfoldable pub members_or : Option Json → BindingError → Result BindingError Members
members_or none e = ok done
members_or (some (object m)) e = ok m
members_or other e = err e

unfoldable pub meta_hash : Platform → Option Json → Result BindingError Text
meta_hash p none = ok (sha256hex p (0 ∷ []))
meta_hash p (some j) = jcs p j >>= λ t. ok (sha256hex p (1 ∷ p.utf8 t))

-- The map over `params.metadata`.
unfoldable pub meta_hashes : Platform → Members → List Text → Result BindingError Items
meta_hashes p meta [] = ok nil
meta_hashes p meta (name ∷ names) = do
  hash ← meta_hash p (get name meta)
  rest ← meta_hashes p meta names
  ok (item (named_hash name hash) rest)

-- `mcpBinding`, its `requestHash`.
unfoldable pub mcp_binding :
    Platform → McpCallForBinding → BindingParams → Text → List Text → Result BindingError Text
mcp_binding p call params server metadata = do
  checked ← check_params p (some (text mcp_1)) (some (params_json params))
  require (not (text_eq call.name [])) bad_tool
  args ← members_or call.arguments bad_arguments
  meta ← members_or call.meta bad_meta
  hashes ← meta_hashes p meta metadata
  hash_of p (
      object (
        member (codes "domain") (text (codes "x402:exact:lnbtc:bolt11:mcp:1")) (
          member (codes "server") (text server) (
            member (codes "method") (text (codes "tools/call")) (
              member (codes "name") (text call.name) (
                member (codes "arguments") (object args)
                  (member (codes "metadata") (array hashes) done)))))))
