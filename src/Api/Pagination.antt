-- ===== src/Api/Pagination.antt =====
-- src/api/pagination.rs. Base64 is a parameter.
pub mod Pages
use s.Common.{
  ℕ, ◌≤◌, ◌<◌, ◌≡◌, Bool, true, false, List, [], ◌∷◌, Option, none, some, if◌then◌else◌, Text, ltb,
  min, length, take,
}
use s.Common.Utf8.{is_utf8}
use s.Common.Chars.{text_le, as_bytes, from_utf8_lossy}

abbrev default_limit : ℕ
default_limit = 50

abbrev pub max_limit : ℕ
max_limit = 200

-- The encoding of the crate `base64`, which decodes what it encoded.
pub record Base64 : Type 0 where
  pub encode : List ℕ → Text
  pub decode : Text → Option (List ℕ)
  pub decode-encode : (bytes : List ℕ) → decode (encode bytes) ≡ some bytes

pub record PaginationParams : Type 0 where
  pub cursor : Option Text
  pub limit : Option ℕ

abbrev limit_or : Option ℕ → ℕ
limit_or none = default_limit
limit_or (some n) = n

unfoldable pub effective_limit : PaginationParams → ℕ
effective_limit p = min (limit_or p.limit) max_limit

pub record PaginatedResponse {ℓ} (T : Type ℓ) : Type ℓ where
  pub data_items : List T
  pub next_cursor : Option Text
  pub has_more : Bool

module _ (base64 : Base64) where
  open base64 use {encode, decode}

  -- `String::from_utf8`; keys are bytes here.
  abbrev utf8_only : Option (List ℕ) → Option (List ℕ)
  utf8_only none = none
  utf8_only (some bytes) = if is_utf8 bytes then some bytes else none

  abbrev decode_some : Option Text → Option (List ℕ)
  decode_some none = none
  decode_some (some c) = utf8_only (decode c)

  unfoldable pub decode_cursor : PaginationParams → Option (List ℕ)
  unfolding is_utf8
  decode_cursor p = decode_some p.cursor

  module _ {ℓ} {T : Type ℓ} (key_fn : T → List ℕ) where
    -- `skip_while` the key is not behind the cursor.
    unfoldable pub skip_to : List ℕ → List T → List T
    unfolding text_le
    skip_to cursor [] = []
    skip_to cursor (x ∷ xs) =
        let rest = skip_to cursor xs in if text_le (key_fn x) cursor then rest else x ∷ xs

    abbrev pub filtered : Option (List ℕ) → List T → List T
    filtered none items = items
    filtered (some cursor) items = skip_to cursor items

    -- The key of the last item.
    unfoldable pub last_key : List T → Option (List ℕ)
    last_key [] = none
    last_key (x ∷ []) = some (key_fn x)
    last_key (x ∷ y ∷ ys) = last_key (y ∷ ys)

    abbrev encode_key : Option (List ℕ) → Option Text
    encode_key none = none
    encode_key (some k) = some (encode k)

    abbrev pub page_of : List T → ℕ → PaginatedResponse T
    page_of rest limit =
        let page = take limit rest in
        let more = ltb limit (length rest) in
        record {
          data_items = page;
          next_cursor = if more then encode_key (last_key page) else none;
          has_more = more;
        }

    unfoldable pub from_sorted : List T → Option (List ℕ) → ℕ → PaginatedResponse T
    unfolding skip_to last_key
    from_sorted items cursor limit = page_of (filtered cursor items) limit
