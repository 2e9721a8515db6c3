-- ===== src/Tests/Documents.antt =====
-- A small type of documents, with a runtime for it that meets what the proofs rely on.
use json_schema_mlir.Prelude.{
  ℕ, ◌==◌, ◌≡◌, refl, arith, Bool, true, Option, none, some, List, length, get_elem?, Bytes,
  bytes_eq, pos,
}
use json_schema_mlir.Float.Halves.{Halves}
use json_schema_mlir.Runtime.{Runtime, IsRuntime, tag, null, number, string, object}
use json_schema_mlir.Ops.Verify.{contains}
use json_schema_mlir.Ir.{Env}

pub data Doc : Type 0 where
  null_doc : Doc
  number_doc : Halves → Doc
  text_doc : Bytes → Doc
  object_doc : List Bytes → Doc

abbrev kind_of : Doc → ℕ
kind_of null_doc = tag null
kind_of (number_doc x) = tag number
kind_of (text_doc s) = tag string
kind_of (object_doc fs) = tag object

abbrev number_of : Doc → Option Halves
number_of (number_doc x) = some x
number_of _ = none

abbrev on_text : {A : Type 0} → (Bytes → A) → Doc → Option A
on_text f (text_doc s) = some (f s)
on_text f _ = none

abbrev has_field_in : Doc → Bytes → Option Bool
has_field_in (object_doc fs) name = some (contains fs name)
has_field_in _ name = none

abbrev at_index : List Bytes → (Bytes → Option Bool) → ℕ → Option Bool
at_index table f i = elim (get_elem? table i) [ none ↦ none | some s ↦ f s ]

-- A text matches a pattern that equals it, and has a format of its own length.
abbrev pub documents : Runtime Doc Halves
documents = record {
  kind = kind_of;
  as_f64 = number_of;
  str_len = on_text (λ s. pos (length s));
  matches = λ h p. on_text (λ s. bytes_eq s p) h;
  has_format = λ h f. on_text (λ s. length s == length f) h;
  has_field = has_field_in;
  str_matches = λ t h i. at_index t (λ p. on_text (λ s. bytes_eq s p) h) i;
  str_format = λ t h i. at_index t (λ f. on_text (λ s. length s == length f) h) i;
  has_field_at = λ t h i. at_index t (has_field_in h) i;
}

as_f64_of : (h : Doc) → kind_of h ≡ tag number → (x : Halves) × (number_of h ≡ some x)
as_f64_of (number_doc x) e = (x, refl)
as_f64_of null_doc e = absurd (ground arith)
as_f64_of (text_doc s) e = absurd (ground arith)
as_f64_of (object_doc fs) e = absurd (ground arith)

on_text_of :
    {A : Type 0} (f : Bytes → A) (h : Doc)
    → kind_of h ≡ tag string
    → (x : A) × (on_text f h ≡ some x)
on_text_of f (text_doc s) e = (f s, refl)
on_text_of f null_doc e = absurd (ground arith)
on_text_of f (number_doc x) e = absurd (ground arith)
on_text_of f (object_doc fs) e = absurd (ground arith)

str_len_of : (h : Doc) → kind_of h ≡ tag string → (n : ℕ) × (documents.str_len h ≡ some (pos n))
str_len_of (text_doc s) e = (length s, refl)
str_len_of null_doc e = absurd (ground arith)
str_len_of (number_doc x) e = absurd (ground arith)
str_len_of (object_doc fs) e = absurd (ground arith)

has_field_of :
    (h : Doc) (f : Bytes) → kind_of h ≡ tag object → (b : Bool) × (has_field_in h f ≡ some b)
has_field_of (object_doc fs) f e = (contains fs f, refl)
has_field_of null_doc f e = absurd (ground arith)
has_field_of (number_doc x) f e = absurd (ground arith)
has_field_of (text_doc s) f e = absurd (ground arith)

at_index_lem :
    (t : List Bytes) (f : Bytes → Option Bool) (i : ℕ) (p : Bytes)
    → get_elem? t i ≡ some p
    → at_index t f i ≡ f p
at_index_lem t f i p e = rw (e, at_index)

pub documents-IsRuntime : IsRuntime documents
documents-IsRuntime = record {
  as_f64_defined = as_f64_of;
  str_len_defined = str_len_of;
  matches_defined = λ h p. on_text_of (λ s. bytes_eq s p) h;
  has_format_defined = λ h f. on_text_of (λ s. length s == length f) h;
  has_field_defined = has_field_of;
  str_matches_pool = λ t h i p e. at_index_lem t (documents.matches h) i p e;
  str_format_pool = λ t h i f e. at_index_lem t (documents.has_format h) i f e;
  has_field_pool = λ t h i f e. at_index_lem t (has_field_in h) i f e;
}

-- Every value is the document `h`, and every verdict holds.
abbrev pub always : Doc → Env Doc
always h = record { doc = λ v. h; bit = λ v. true }
