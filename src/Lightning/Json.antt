-- ===== src/Lightning/Json.antt =====
-- packages/lightning/src: untrusted values as `JSON.parse` gives them, and what the platform and the
-- packages outside the repository (node:crypto, @noble/curves, @scure/base, URL, TextDecoder) answer.
-- An `Option Json` is a value that may be undefined.
use arcagentx.Prelude.{
  ℕ, Bool, true, false, Option, none, some, List, [], ◌∷◌, ltb, leb, ◌==◌, ◌||◌, ◌&&◌,
  if◌then◌else◌,
}
use arcagentx.Prelude.Text.{Text, text_eq}

-- A number is whole and not negative, or any other one, by its bits.
mutual
  pub data Json : Type 0 where
    null : Json
    boolean : Bool → Json
    whole : ℕ → Json
    other_number : ℕ → Json
    text : Text → Json
    array : Items → Json
    object : Members → Json

  pub data Items : Type 0 where
    nil : Items
    item : Json → Items → Items

  pub data Members : Type 0 where
    done : Members
    member : Text → Json → Members → Members

-- What `new URL` reads.
pub record Url : Type 0 where
  pub protocol : Text
  pub username : Text
  pub password : Text

pub record Platform : Type 0 where
  -- The digest of bytes, the two directions of `Buffer`'s "hex", and of UTF-8 (the second is fatal).
  pub sha256 : List ℕ → List ℕ
  pub hex : List ℕ → Text
  pub from_hex : Text → List ℕ
  pub utf8 : Text → List ℕ
  pub utf8_decode : List ℕ → Option Text
  -- `JSON.stringify` of null, a Boolean, a number or a string.
  pub stringify : Json → Text
  pub parse_url : Text → Option Url
  pub bech32_decode : Text → Option (Text × List ℕ)
  pub from_words : List ℕ → Option (List ℕ)
  -- Whether the text is the key of a point of secp256k1.
  pub is_point : Text → Bool
  -- A compact signature is well formed; it is the key's; the key that it is of.
  pub is_signature : List ℕ → Bool
  pub verify : List ℕ → List ℕ → List ℕ → Bool
  pub recover : List ℕ → ℕ → List ℕ → Option Text

-- `m[key]`.
unfoldable pub get : Text → Members → Option Json
get key done = none
get key (member k v m) = if text_eq k key then some v else get key m

-- `asObject`.
unfoldable pub as_object : Option Json → Option Members
as_object (some (object m)) = some m
as_object other = none

-- `===`. Objects and arrays of two bodies are never the same one.
unfoldable pub same : Option Json → Option Json → Bool
same none none = true
same (some null) (some null) = true
same (some (boolean true)) (some (boolean b)) = b
same (some (boolean false)) (some (boolean true)) = false
same (some (boolean false)) (some (boolean false)) = true
same (some (whole m)) (some (whole n)) = m == n
same (some (other_number m)) (some (other_number n)) = m == n
same (some (text s)) (some (text t)) = text_eq s t
same x y = false

-- `x === "..."`.
unfoldable pub is_text : Text → Option Json → Bool
is_text t (some (text s)) = text_eq s t
is_text t other = false

-- The characters of a key or a digest: `[0-9a-f]`.
abbrev pub is_hex_digit : ℕ → Bool
is_hex_digit c = (leb b'0' c && leb c b'9') || (leb b'a' c && leb c b'f')

-- `s < t`, by code units.
unfoldable pub text_lt : Text → Text → Bool
text_lt s [] = false
text_lt [] (d ∷ t) = true
text_lt (c ∷ s) (d ∷ t) = let rest = text_lt s t in ltb c d || (c == d && rest)
