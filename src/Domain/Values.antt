-- ===== src/Domain/Values.antt =====
-- Text, identifiers, times, floats and the dynamic values of metadata dictionaries (the `Any` of
-- backend/src/postmortem_backend/domain.py).
use Prim.Native.Char.{code}
use ckdb_aws.Base.{
  ℕ, zero, suc, ◌+◌, ◌/◌, ◌%◌, String, Bool, false, true, ◌&&◌, ◌||◌, ◌≡◌, ◌↔◌, Option, none, some,
  List, [], ◌∷◌, ◌++◌, arith, Eq, ◌==◌, nat_eq, ◌^◌, if◌then◌else◌, ltb, not, length,
}

-- A Python `str`: its code points.
abbrev pub Text : Type 0
Text = List ℕ

abbrev pub text : String → Text
text String.[] = []
text (String.◌∷◌ c s) = code c ∷ text s

unfoldable pub text_beq : Text → Text → Bool
text_beq [] [] = true
text_beq [] (y ∷ ys) = false
text_beq (x ∷ xs) [] = false
text_beq (x ∷ xs) (y ∷ ys) = x == y && text_beq xs ys

pub text_beq_iff : (a b : Text) → (text_beq a b ≡ true) ↔ (a ≡ b)
unfolding text_beq
text_beq_iff [] [] = ground arith
text_beq_iff [] (y ∷ ys) = ground arith
text_beq_iff (x ∷ xs) [] = ground arith
text_beq_iff (x ∷ xs) (y ∷ ys) = ground (arith, text_beq_iff xs ys)

instance abbrev pub text_eq : Eq Text
text_eq = record { equal = text_beq; equal_iff = text_beq_iff }

-- A `UUID` is the number `UUID.int`; `UUID(int=0)` is the nil id.
abbrev pub Uuid : Type 0
Uuid = ℕ

abbrev hex_digit : ℕ → ℕ
hex_digit d = if ltb d 10 then b'0' + d else b'a' + (d + 6) % 16

-- The last `k` hexadecimal digits of `n`.
hex : ℕ → ℕ → Text
hex zero n = []
hex (suc k) n = hex k (n / 16) ++ hex_digit (n % 16) ∷ []

-- `str(uuid)`: 8-4-4-4-12 hexadecimal digits.
unfoldable pub uuid_text : Uuid → Text
unfolding hex
uuid_text u =
    hex 8 (u / 16 ^ 24)
    ++ (text "-"
        ++ (hex 4 (u / 16 ^ 20)
            ++ (text "-"
                ++ (hex 4 (u / 16 ^ 16)
                    ++ (text "-" ++ (hex 4 (u / 16 ^ 12) ++ (text "-" ++ hex 12 u)))))))

-- The order of `str`: by code points, a prefix first.
unfoldable pub text_leb : Text → Text → Bool
text_leb [] ys = true
text_leb (x ∷ xs) [] = false
text_leb (x ∷ xs) (y ∷ ys) = let rest = text_leb xs ys in ltb x y || (x == y && rest)

-- `str(n)`. The fuel `n` is enough: each round drops a digit.
decimal_from : (fuel n : ℕ) → Text → Text
decimal_from zero n rest = (b'0' + n) ∷ rest
decimal_from (suc f) n rest =
    let more = decimal_from f (n / 10) ((b'0' + n % 10) ∷ rest) in
    if ltb n 10 then (b'0' + n) ∷ rest else more

unfoldable pub decimal : ℕ → Text
unfolding decimal_from
decimal n = decimal_from n n []

-- A `datetime` by its microseconds: `naive` without a zone, `aware` as the UTC instant.
pub data Datetime : Type 0 where
  naive : ℕ → Datetime
  aware : ℕ → Datetime

-- A `float` by the bits of its IEEE double. The arithmetic is a parameter where it is used.
pub data Float : Type 0 where
  double : ℕ → Float

-- What metadata holds. A whole number there is a count: negative ones are left out.
mutual
  pub data Value : Type 0 where
    null : Value
    bool : Bool → Value
    int : ℕ → Value
    float : Float → Value
    str : Text → Value
    uuid : Uuid → Value
    datetime : Datetime → Value
    tuple : Items → Value
    list : Items → Value
    dict : Fields → Value

  pub data Items : Type 0 where
    nil : Items
    item : Value → Items → Items

  pub data Fields : Type 0 where
    end : Fields
    field : Text → Value → Fields → Fields

-- `d.get(key)`
unfoldable pub lookup : Text → Fields → Option Value
lookup k end = none
lookup k (field j v d) = if j == k then some v else lookup k d

-- `bool(value)`
abbrev pub truthy : Value → Bool
truthy null = false
truthy (bool b) = b
truthy (int n) = not (n == 0)
truthy (float (double bits)) = not (bits == 0 || bits == 2 ^ 63)
truthy (str t) = ltb 0 (length t)
truthy (uuid i) = true
truthy (datetime d) = true
truthy (tuple nil) = false
truthy (tuple (item v xs)) = true
truthy (list nil) = false
truthy (list (item v xs)) = true
truthy (dict end) = false
truthy (dict (field k v d)) = true

-- `{**d, key: value}`: an old key keeps its place.
unfoldable pub with_field : Text → Value → Fields → Fields
with_field k v end = field k v end
with_field k v (field j w d) = if j == k then field j v d else field j w (with_field k v d)

-- `d.get(key) or default`
abbrev pub or_value : Option Value → Value → Value
or_value none d = d
or_value (some v) d = if truthy v then v else d
