-- ===== src/Tracer/Describing/Leaves/Matched.antt =====
-- What src/tracer.c prints for a type without parts closes the braces that it opens.
use Prim.Native.String.{String}
use libside.Common.{
  ℕ, Bool, List, [], ◌∷◌, ◌++◌, ◌==◌, ltb, ok, ◌≡◌, some, refl, Bool-cases, inl, inr, Ensures,
  Ensures-ok, Ensures-fault, Ensures->>=,
}
use libside.Visit.Integers.{ByteOrder, little_endian, big_endian}
use libside.Visit.Types.{Access, direct, pointer_to, unknown_access}
use libside.Visit.Calls.{
  Leaf, null_type_func, bool_type_func, integer_type_func, byte_type_func, pointer_type_func,
  float_type_func, string_type_func, gather_bool_type_func, gather_byte_type_func,
  gather_integer_type_func, gather_pointer_type_func, gather_float_type_func,
  gather_string_type_func,
}
use libside.Tracer.Output.{Piece, text, unsigned, Iconv}
use libside.Tracer.Attributes.{Attr, tracer_print_type_header}
use libside.Tracer.Printing.Brackets.{
  Bracket, brace, scan_piece, Moves-nil, Moves-append, Moves-cons, Moves-one, Closed,
}
use libside.Tracer.Values.Brackets.{two-Closed, type_header-Closed}
use libside.Tracer.Describing.Leaves.{
  LeafType, access_text, order_text, sign_text, len_bits_text, offset_bits_text, place_text,
  integer_text, bool_text, float_text, string_text, in_braces, type_text, describe_leaf,
}

pub access_text-Closed : (a : Access) → Closed (access_text a)
access_text-Closed direct o = Moves-one (text "\"direct\"") o o refl
access_text-Closed pointer_to o = Moves-one (text "\"pointer\"") o o refl
access_text-Closed unknown_access o = Moves-one (text "\"pointer\"") o o refl

order_text-Closed : (b : ByteOrder) → Closed (order_text b)
order_text-Closed little_endian o =
    Moves-cons _ _ o o o refl (Moves-cons _ _ o o o refl (Moves-one _ o o refl))
order_text-Closed big_endian o =
    Moves-cons _ _ o o o refl (Moves-cons _ _ o o o refl (Moves-one _ o o refl))

sign_text-Closed : (b : Bool) → Closed (sign_text b)
sign_text-Closed b o = elim (Bool-cases b) [
  | inl e ↦ rw e (Moves-cons _ _ o o o refl (Moves-one (text "true") o o refl))
  | inr e ↦ rw e (Moves-cons _ _ o o o refl (Moves-one (text "false") o o refl))
]

len_bits_text-Closed : (n : ℕ) → Closed (len_bits_text n)
len_bits_text-Closed n o = elim (Bool-cases (n == 0)) [
  | inl e ↦ rw e (Moves-nil o)
  | inr e ↦ rw e (Moves-cons _ _ o o o refl (Moves-one (unsigned n) o o refl))
]

sized-Closed : (n : ℕ) (ps : List Piece) → Closed ps → Closed (unsigned n ∷ ps)
sized-Closed n ps h o = Moves-cons (unsigned n) ps o o o refl (h o)

place_text-Closed :
    (between : List Piece) (t : LeafType) → Closed between → Closed (place_text between t)
place_text-Closed between t h =
    two-Closed (text ", offset: " ∷ unsigned t.offset ∷ between)
      (text ", access_mode: " ∷ access_text t.access_mode)
      (λ o. Moves-cons _ _ o o o refl (Moves-cons _ _ o o o refl (h o)))
      (λ o. Moves-cons _ _ o o o refl (access_text-Closed t.access_mode o))

bits-Closed : (t : LeafType) → Closed (place_text (offset_bits_text t.offset_bits) t)
bits-Closed t =
    place_text-Closed (offset_bits_text t.offset_bits) t
      (λ o. Moves-cons _ _ o o o refl (Moves-one (unsigned t.offset_bits) o o refl))

integer_text-Closed : (t : LeafType) → Closed (integer_text t)
integer_text-Closed t =
    two-Closed (unsigned t.size ∷ sign_text t.signedness ++ order_text t.byte_order)
      (len_bits_text t.len_bits)
      (two-Closed (unsigned t.size ∷ sign_text t.signedness) (order_text t.byte_order)
        (sized-Closed t.size (sign_text t.signedness) (sign_text-Closed t.signedness))
        (order_text-Closed t.byte_order))
      (len_bits_text-Closed t.len_bits)

bool_text-Closed : (t : LeafType) → Closed (bool_text t)
bool_text-Closed t =
    sized-Closed t.size (len_bits_text t.len_bits) (len_bits_text-Closed t.len_bits)

float_text-Closed : (t : LeafType) → Closed (float_text t)
float_text-Closed t = sized-Closed t.size (order_text t.byte_order) (order_text-Closed t.byte_order)

string_text-Closed : (t : LeafType) → Closed (string_text t)
string_text-Closed t o = elim (Bool-cases (ltb 1 t.size)) [
  | inl e ↦ rw e (float_text-Closed t o)
  | inr e ↦ rw e (Moves-one (unsigned t.size) o o refl)
]

in_braces-Closed :
    (opening : String) (inner : List Piece)
    → ((o : List Bracket) → scan_piece (text opening) o ≡ some (brace ∷ o))
    → Closed inner
    → Ensures Closed (ok (in_braces opening inner))
in_braces-Closed opening inner opens h = Ensures-ok Closed (in_braces opening inner) (λ o.
    Moves-append (text opening ∷ inner) (text " }" ∷ []) o (brace ∷ o) o
      (Moves-cons (text opening) inner o (brace ∷ o) (brace ∷ o) (opens o) (h (brace ∷ o)))
      (Moves-one (text " }") (brace ∷ o) o refl))

type_text-Closed : (l : Leaf) (t : LeafType) → Ensures Closed (type_text l t)
unfolding type_text
type_text-Closed null_type_func t = Ensures-ok Closed _ (λ o. Moves-one (text "null") o o refl)
type_text-Closed byte_type_func t = Ensures-ok Closed _ (λ o. Moves-one (text "byte") o o refl)
type_text-Closed bool_type_func t =
    in_braces-Closed "bool { size: " (bool_text t) (λ o. refl) (bool_text-Closed t)
type_text-Closed integer_type_func t =
    in_braces-Closed "integer { size: " (integer_text t) (λ o. refl) (integer_text-Closed t)
type_text-Closed pointer_type_func t =
    in_braces-Closed "pointer { size: " (integer_text t) (λ o. refl) (integer_text-Closed t)
type_text-Closed float_type_func t =
    in_braces-Closed "float { size: " (float_text t) (λ o. refl) (float_text-Closed t)
type_text-Closed string_type_func t =
    in_braces-Closed "string { unit_size: " (string_text t) (λ o. refl) (string_text-Closed t)
type_text-Closed gather_bool_type_func t =
    in_braces-Closed "gather_bool { size: " _ (λ o. refl)
      (two-Closed (bool_text t) (place_text (offset_bits_text t.offset_bits) t) (bool_text-Closed t)
        (bits-Closed t))
type_text-Closed gather_byte_type_func t =
    in_braces-Closed "gather_byte { offset: "
      (unsigned t.offset ∷ text ", access_mode: " ∷ access_text t.access_mode) (λ o. refl)
      (λ o. Moves-cons (unsigned t.offset) _ o o o refl (
        Moves-cons (text ", access_mode: ") (access_text t.access_mode) o o o refl
          (access_text-Closed t.access_mode o)))
type_text-Closed gather_integer_type_func t =
    in_braces-Closed "gather_integer { size: " _ (λ o. refl)
      (two-Closed (integer_text t) (place_text (offset_bits_text t.offset_bits) t)
        (integer_text-Closed t) (bits-Closed t))
type_text-Closed gather_pointer_type_func t =
    in_braces-Closed "gather_pointer { size: " _ (λ o. refl)
      (two-Closed (integer_text t) (place_text (offset_bits_text t.offset_bits) t)
        (integer_text-Closed t) (bits-Closed t))
type_text-Closed gather_float_type_func t =
    in_braces-Closed "gather_float { size: " _ (λ o. refl)
      (two-Closed (float_text t) (place_text [] t) (float_text-Closed t)
        (place_text-Closed [] t Moves-nil))
type_text-Closed gather_string_type_func t =
    in_braces-Closed "gather_string { unit_size: " _ (λ o. refl)
      (two-Closed (string_text t) (place_text [] t) (string_text-Closed t)
        (place_text-Closed [] t Moves-nil))
type_text-Closed _ t = Ensures-fault Closed

-- Each function closes the brace that it opens.
pub describe_leaf-Closed :
    (iconv : Iconv) (has_float : ℕ → Bool) (attrs : List Attr) (t : LeafType) (l : Leaf)
    → Ensures Closed (describe_leaf iconv has_float attrs t l)
unfolding describe_leaf
describe_leaf-Closed iconv has_float attrs t l =
    Ensures->>= Closed Closed (tracer_print_type_header iconv has_float "type" ":" attrs) _
      (type_header-Closed iconv has_float "type" ":" attrs (λ o. refl) (λ o. refl))
      (λ header closed.
        Ensures->>= Closed Closed (type_text l t) _ (type_text-Closed l t)
          (λ out more. Ensures-ok Closed _ (two-Closed header out closed more)))
