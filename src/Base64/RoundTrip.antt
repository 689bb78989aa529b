-- ===== src/Base64/RoundTrip.antt =====
-- encoding/base64 as src/controlplane/mocks.go uses it: decoding gives back what was encoded.
use sovereign_core.Prelude.{
  ℕ, ◌+◌, ◌*◌, ◌/◌, ◌%◌, ◌<◌, eqb, Text, bytes, ◌==◌, All, false, ◌≡◌, refl, ◌∙◌, ◌≢◌, List, [],
  ◌∷◌, some, arith,
}
use sovereign_core.Base64.{
  symbol, encode_url, value, without_newlines, quad, four, padded, decode_quads, decode_url,
}

abbrev pub IsByte : ℕ → Type 0
IsByte b = b < 256

value-symbol : (n : ℕ) → n < 64 → value (symbol n) ≡ some n
unfolding symbol value
value-symbol n h = ground arith

pub symbol_plain : (n : ℕ) → n < 64 → (symbol n ≢ b'=') × (symbol n ≢ 10) × (symbol n ≢ 13)
unfolding symbol
symbol_plain n h = ground arith

pub symbol_unpadded : (n : ℕ) → n < 64 → eqb (symbol n) b'=' ≡ false
symbol_unpadded n h = ground (arith, symbol_plain n h)

-- Four symbols that are not followed by padding of their own.
decode_quads-symbol :
    (m n o p : ℕ) (s : Text) (out : List ℕ)
    → m < 64
    → n < 64
    → o < 64
    → p < 64
    → decode_quads s ≡ some out
    → decode_quads (symbol m ∷ symbol n ∷ symbol o ∷ symbol p ∷ s)
      ≡ some ((m * 4 + n / 16) ∷ (n % 16 * 16 + o / 4) ∷ (o % 4 * 64 + p) ∷ out)
unfolding decode_quads quad four
decode_quads-symbol m n o p s out h1 h2 h3 h4 e =
    rw (value-symbol m h1, value-symbol n h2, symbol_unpadded o h3, symbol_unpadded p h4)
      (rw (value-symbol o h3, value-symbol p h4, e) refl)

padded_two :
    (m n : ℕ)
    → m < 64
    → n < 64
    → decode_quads (symbol m ∷ symbol n ∷ b'=' ∷ b'=' ∷ []) ≡ some ((m * 4 + n / 16) ∷ [])
unfolding decode_quads quad padded ◌==◌
padded_two m n h1 h2 = rw (value-symbol m h1, value-symbol n h2) refl

padded_one :
    (m n o : ℕ)
    → m < 64
    → n < 64
    → o < 64
    → decode_quads (symbol m ∷ symbol n ∷ symbol o ∷ b'=' ∷ [])
      ≡ some ((m * 4 + n / 16) ∷ (n % 16 * 16 + o / 4) ∷ [])
unfolding decode_quads quad padded ◌==◌
padded_one m n o h1 h2 h3 =
    rw (value-symbol m h1, value-symbol n h2, symbol_unpadded o h3)
      (rw (value-symbol o h3, padded) refl)

-- The four numbers that three bytes are split into, and the bytes from them.
pub split :
    (a b c : ℕ)
    → IsByte a
    → IsByte b
    → IsByte c
    → (a / 4 < 64)
      × (a % 4 * 16 + b / 16 < 64)
      × (b % 16 * 4 + c / 64 < 64)
      × (c % 64 < 64)
      × (a / 4 * 4 + (a % 4 * 16 + b / 16) / 16 ≡ a)
      × ((a % 4 * 16 + b / 16) % 16 * 16 + (b % 16 * 4 + c / 64) / 4 ≡ b)
      × ((b % 16 * 4 + c / 64) % 4 * 64 + c % 64 ≡ c)
split a b c h k l =
    (omega arith, omega arith, omega arith, omega arith, omega arith, omega arith, omega arith)

decode_quads-encode : (s : List ℕ) → All IsByte s → decode_quads (encode_url s) ≡ some s
unfolding encode_url bytes
decode_quads-encode [] h = unfold decode_quads in refl
decode_quads-encode (a ∷ []) h =
    padded_two (a / 4) (a % 4 * 16) (omega arith) (omega arith) ∙ ground arith
decode_quads-encode (a ∷ b ∷ []) h =
    padded_one (a / 4) (a % 4 * 16 + b / 16) (b % 16 * 4) (omega arith) (omega arith) (omega arith)
    ∙ ground arith
decode_quads-encode (a ∷ b ∷ c ∷ s) h =
    let (l1, l2, l3, l4, e1, e2, e3) = split a b c h.0 h.1.0 h.1.1.0 in
    decode_quads-symbol _ _ _ _ (encode_url s) s l1 l2 l3 l4 (decode_quads-encode s h.1.1.1)
    ∙ rw (e1, e2, e3) refl

-- Symbols and padding hold no line end.
abbrev Plain : ℕ → Type 0
Plain c = (c ≢ 10) × (c ≢ 13)

symbol-Plain : (n : ℕ) → n < 64 → Plain (symbol n)
symbol-Plain n h = let (e, k, l) = symbol_plain n h in (k, l)

-- What holds of every symbol and of the padding holds of every byte of a text that was encoded.
pub encode_url-All :
    (P : ℕ → Type 0)
    → ((n : ℕ) → n < 64 → P (symbol n))
    → P b'='
    → (s : List ℕ) → All IsByte s
    → All P (encode_url s)
unfolding encode_url bytes
encode_url-All P f p [] h = tt
encode_url-All P f p (a ∷ []) h =
    (f (a / 4) (omega arith), (f (a % 4 * 16) (omega arith), (p, (p, tt))))
encode_url-All P f p (a ∷ b ∷ []) h = (
  f (a / 4) (omega arith),
  (f (a % 4 * 16 + b / 16) (omega arith), (f (b % 16 * 4) (omega arith), (p, tt))),
)
encode_url-All P f p (a ∷ b ∷ c ∷ s) h =
    let (l1, l2, l3, l4, e1, e2, e3) = split a b c h.0 h.1.0 h.1.1.0 in
    (f _ l1, (f _ l2, (f _ l3, (f _ l4, encode_url-All P f p s h.1.1.1))))

encode_url-Plain : (s : List ℕ) → All IsByte s → All Plain (encode_url s)
encode_url-Plain = encode_url-All Plain symbol-Plain (ground arith, ground arith)

without_newlines-Plain : (s : Text) → All Plain s → without_newlines s ≡ s
unfolding without_newlines
without_newlines-Plain [] h = refl
without_newlines-Plain (c ∷ s) h = ground (arith, without_newlines-Plain s h.1, h.0)

-- DecodeString gives back the bytes that EncodeToString was given, of any number.
pub decode_url-encode_url : (s : List ℕ) → All IsByte s → decode_url (encode_url s) ≡ some s
unfolding decode_url
decode_url-encode_url s h =
    rw (without_newlines-Plain (encode_url s) (encode_url-Plain s h)) (decode_quads-encode s h)
