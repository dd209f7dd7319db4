-- ===== src/Json.antt =====
-- JSON documents as rapidjson hands them to the code: the values that `IsObject`, `IsString`,
-- `IsInt64` and `IsArray` tell apart, member lookup, and C strings. The parser and the writer
-- themselves are rapidjson's, and are parameters of the modules that call them.
use Prim.Native.Char.{code}
use Prim.Native.String.{String}
use stream_monitor.Prelude.{
  ℕ, ◌+◌, ◌/◌, ◌%◌, ◌≡◌, ◌≢◌, ◌↔◌, refl, Bool, true, false, ◌&&◌, List, [], ◌∷◌, ◌++◌, Option, none,
  some, ltb, ◌==◌, if◌then◌else◌, arith, All,
}
use stream_monitor.Prelude.Int.{ℤ}
use stream_monitor.Framing.{Bytes}

-- `int` is what `IsInt64` accepts; `num` is any other number.
mutual
  pub data Json : Type 0 where
    null : Json
    bool : Bool → Json
    int : ℤ → Json
    num : Json
    str : Bytes → Json
    arr : Items → Json
    obj : Members → Json

  pub data Items : Type 0 where
    nil : Items
    cons : Json → Items → Items

  pub data Members : Type 0 where
    end : Members
    field : Bytes → Json → Members → Members

-- The bytes of an ASCII literal.
abbrev pub codes : String → Bytes
codes String.[] = []
codes (String.◌∷◌ c s) = code c ∷ codes s

utf8_char : ℕ → Bytes
utf8_char c =
    if ltb c 0x80
    then c ∷ []
    else if ltb c 0x800
    then (0xc0 + c / 64) ∷ (0x80 + c % 64) ∷ []
    else (0xe0 + c / 4096) ∷ (0x80 + c / 64 % 64) ∷ (0x80 + c % 64) ∷ []

-- The bytes of a literal with characters below U+10000, in UTF-8.
unfoldable pub utf8 : String → Bytes
unfolding utf8_char
utf8 String.[] = []
utf8 (String.◌∷◌ c s) = utf8_char (code c) ++ utf8 s

-- std::string's `==`.
unfoldable pub bytes_eq : Bytes → Bytes → Bool
bytes_eq [] [] = true
bytes_eq (x ∷ xs) (y ∷ ys) = x == y && bytes_eq xs ys
bytes_eq _ _ = false

pub bytes_eq_iff : (a b : Bytes) → (bytes_eq a b ≡ true) ↔ (a ≡ b)
unfolding bytes_eq
bytes_eq_iff (x ∷ a) (y ∷ b) = ground (arith, bytes_eq_iff a b)
bytes_eq_iff _ _ = ground arith

pub bytes_eq_refl : (a : Bytes) → bytes_eq a a ≡ true
bytes_eq_refl a = (bytes_eq_iff a a).1 refl

-- What is left of a byte string that is read through a `const char*`: it ends at the first NUL.
unfoldable pub c_str : Bytes → Bytes
c_str [] = []
c_str (c ∷ cs) = let rest = c_str cs in if c == 0 then [] else c ∷ rest

abbrev pub IsCStr : Bytes → Type 0
IsCStr s = All (λ c. c ≢ 0) s

pub c_str-IsCStr : (s : Bytes) → IsCStr (c_str s)
unfolding c_str
c_str-IsCStr [] = tt
c_str-IsCStr (c ∷ cs) = ground (arith, c_str-IsCStr cs)

pub c_str_id : (s : Bytes) → IsCStr s → c_str s ≡ s
unfolding c_str
c_str_id [] h = refl
c_str_id (c ∷ cs) h = ground (arith, c_str_id cs h.1)

-- `FindMember`: the first member of that name.
unfoldable pub find_member : Bytes → Members → Option Json
find_member k end = none
find_member k (field j v ms) = if bytes_eq j k then some v else find_member k ms

-- What a writer makes between `StartObject` and `EndObject`, and between the brackets of an array.
abbrev pub fields : List (Bytes × Json) → Members
fields [] = end
fields ((k, v) ∷ ms) = field k v (fields ms)

abbrev pub items : List Json → Items
items [] = nil
items (x ∷ xs) = cons x (items xs)

abbrev pub object : List (Bytes × Json) → Json
object ms = obj (fields ms)

-- `it->value.IsString() ? it->value.GetString() : std::string{}`
unfoldable pub string_or_empty : Option Json → Bytes
string_or_empty (some (str s)) = c_str s
string_or_empty _ = []

-- json_str of src/cpp/collector/main.cpp, and the type of a request.
unfoldable pub json_str : Members → Bytes → Bytes
unfolding string_or_empty
json_str ms k = string_or_empty (find_member k ms)

string_or_empty-IsCStr : (o : Option Json) → IsCStr (string_or_empty o)
unfolding string_or_empty
string_or_empty-IsCStr (some (str s)) = c_str-IsCStr s
string_or_empty-IsCStr _ = tt

pub json_str-IsCStr : (ms : Members) (k : Bytes) → IsCStr (json_str ms k)
unfolding json_str
json_str-IsCStr ms k = string_or_empty-IsCStr (find_member k ms)
