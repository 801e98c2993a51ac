-- ===== src/Floats.antt =====
-- Arithmetic and order of IEEE doubles, and the builtins of Python that turn a value into another.
-- The code under backend/src/postmortem_backend takes both from the language.
use ckdb_aws.Base.{Bool, List, Result, false, true, ℕ, err, ok}
use ckdb_aws.Domain.{
  Datetime, Error, Float, Text, Value, bool, decimal, double, int, null, str, text, uuid, uuid_text,
  float, type_error,
}

-- `ratio` is `/` of two whole numbers, `sum` the builtin and `fixed3` the format `.3f`.
pub record FloatOps : Type 0 where
  pub add : Float → Float → Float
  pub mul : Float → Float → Float
  pub div : Float → Float → Float
  pub exp : Float → Float
  pub sqrt : Float → Float
  pub ratio : ℕ → ℕ → Float
  pub sum : List Float → Float
  pub fixed3 : Float → Text
  pub lt : Float → Float → Bool
  pub le : Float → Float → Bool
  pub same : Float → Float → Bool

-- `int(text)`, `int(float)`, `datetime.fromisoformat(text)`, `str(value)` of a value that is not a
-- text, and `float(value)`.
pub record Builtins : Type 0 where
  pub parse_int : Text → Result Error ℕ
  pub truncate : Float → Result Error ℕ
  pub parse_datetime : Text → Result Error Datetime
  pub repr_of : Value → Text
  pub to_float : Value → Result Error Float

-- `str(value)`
unfoldable pub str_of : Builtins → Value → Text
unfolding decimal uuid_text
str_of b (str t) = t
str_of b (uuid u) = uuid_text u
str_of b (int n) = decimal n
str_of b (bool true) = text "True"
str_of b (bool false) = text "False"
str_of b null = text "None"
str_of b v = b.repr_of v

-- `int(value)`
unfoldable pub int_of : Builtins → Value → Result Error ℕ
int_of b (int n) = ok n
int_of b (bool true) = ok 1
int_of b (bool false) = ok 0
int_of b (float x) = b.truncate x
int_of b (str t) = b.parse_int t
int_of b (uuid u) = ok u
int_of b v = err type_error

-- `0.0`, `1.0`, `2.0` and the weights of the scores.
abbrev pub float_zero : Float
float_zero = double 0

abbrev pub float_one : Float
float_one = double 4607182418800017408

abbrev pub float_two : Float
float_two = double 4611686018427387904

abbrev pub point_05 : Float
point_05 = double 4587366580439587226

abbrev pub point_10 : Float
point_10 = double 4591870180066957722

abbrev pub point_20 : Float
point_20 = double 4596373779694328218

abbrev pub point_25 : Float
point_25 = double 4598175219545276416

abbrev pub point_50 : Float
point_50 = double 4602678819172646912

abbrev pub point_55 : Float
point_55 = double 4603129179135383962

abbrev pub point_60 : Float
point_60 = double 4603579539098121011

abbrev pub point_65 : Float
point_65 = double 4604029899060858061

abbrev pub point_72 : Float
point_72 = double 4604660403008689930

-- `-0.69314718056`
abbrev pub minus_ln_two : Float
minus_ln_two = double 13827790571168218076

abbrev pub point_30 : Float
point_30 = double 4599075939470750515

abbrev pub point_70 : Float
point_70 = double 4604480259023595110
