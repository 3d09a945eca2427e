-- ===== src/Model/Json/Fixpoint.antt =====
-- The depth to which the calls of DecodeState nest is enough.
use mathlib.Core.List.{Memᴰ}
use brokr.Common.{
  ℕ, zero, suc, ◌<◌, String, Option, none, some, List, [], ◌∷◌, ◌≡◌, refl, ap, ap₂, arith,
}
use brokr.Model.Workflow.{State}
use brokr.Model.Json.{
  CompositeAlias, Codec, composite_of, then_cons, decode_all, decode_composite, decode_typed,
  decode_within, decode_state,
}

-- A raw message is a part of the document, and shorter.
pub record Nested {B : Type 0} (codec : Codec B) : Type 0 where
  pub shorter :
      (b raw : B) (a : CompositeAlias) (raws : List B)
      → codec.unmarshal_composite b ≡ some (a, raws)
      → Memᴰ raw raws
      → codec.size raw < codec.size b

module _ {B : Type 0} (f g : B → Option State) where
  decode_all_cong :
      (raws : List B)
      → ((raw : B) → Memᴰ raw raws → f raw ≡ g raw)
      → decode_all f raws ≡ decode_all g raws
  unfolding decode_all
  decode_all_cong [] h = refl
  decode_all_cong (raw ∷ raws) h =
      ap₂ then_cons (h raw (Memᴰ.head refl)) (decode_all_cong raws (λ r m. h r (Memᴰ.tail m)))

module _ {B : Type 0} (codec : Codec B) (nested : Nested codec) where
  -- What decodes the parts of a document alike decodes the document alike.
  decode_typed_cong :
      (f g : B → Option State) (b : B)
      → ((raw : B) → codec.size raw < codec.size b → f raw ≡ g raw)
      → (type : Option String) → decode_typed codec f type b ≡ decode_typed codec g type b
  unfolding decode_typed
  decode_typed_cong f g b h none = refl
  decode_typed_cong f g b h (some type) =
      rw (composite_cong (codec.unmarshal_composite b) refl) refl
    where
      composite_cong :
          (parts : Option (CompositeAlias × List B))
          → codec.unmarshal_composite b ≡ parts
          → decode_composite f parts ≡ decode_composite g parts
      composite_cong none e = refl
      composite_cong (some (a, raws)) e =
          ap (composite_of a)
            (decode_all_cong f g raws (λ raw m. h raw (nested.shorter b raw a raws e m)))

  decode_within-enough :
      (n m : ℕ) (b : B)
      → codec.size b < n
      → codec.size b < m
      → decode_within codec n b ≡ decode_within codec m b
  unfolding decode_within
  decode_within-enough zero m b h k = absurd (omega arith)
  decode_within-enough (suc n) zero b h k = absurd (omega arith)
  decode_within-enough (suc n) (suc m) b h k =
      decode_typed_cong _ _ b (λ raw lt. decode_within-enough n m raw (omega arith) (omega arith))
        (codec.peek b)

  -- Where a raw message is shorter than the document that it is part of, DecodeState is the function
  -- that calls itself for every substate: the depth that the model allows is never reached.
  pub decode_state-unfolds :
      (b : B) → decode_state codec b ≡ decode_typed codec (decode_state codec) (codec.peek b) b
  unfolding decode_state decode_within
  decode_state-unfolds b =
      decode_typed_cong _ _ b
        (λ raw lt. decode_within-enough (codec.size b) (suc (codec.size raw)) raw lt (omega arith))
        (codec.peek b)
