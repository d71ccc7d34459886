-- ===== src/Json/Equality.antt =====
-- Dicts with the same keys have the same size, and the other way round: what `==` on dicts rests on.
use secure_litellm_on_azure.Base.{
  suc, ◌≤◌, String, ◌≡◌, refl, true, false, arith, str_eq, eq_iff, eq_refl, if◌then◌else◌,
}
use secure_litellm_on_azure.Json.{Fields, end, field, has, pop, size, UniqueFields}

abbrev pub KeysIn : Fields → Fields → Type 0
KeysIn d e = (j : String) → has j d ≡ true → has j e ≡ true

pub has-pop :
    (k j : String) (d : Fields) → has j (pop k d) ≡ (if str_eq k j then false else has j d)
unfolding has pop
has-pop k j end = ground arith
has-pop k j (field i w rest) = ground (arith, eq_iff k j, eq_iff i k, eq_iff i j, has-pop k j rest)

pop_fresh : (k : String) (d : Fields) → has k d ≡ false → pop k d ≡ d
unfolding has pop
pop_fresh k end h = refl
pop_fresh k (field i w rest) h = ground (arith, pop_fresh k rest)

pop-UniqueFields : (k : String) (d : Fields) → UniqueFields d → UniqueFields (pop k d)
unfolding has pop UniqueFields
pop-UniqueFields k end u = tt
pop-UniqueFields k (field i w rest) (new, uw, u) =
    ground (arith, pop-UniqueFields k rest u, has-pop k i rest)

size-pop :
    (k : String) (d : Fields) → UniqueFields d → has k d ≡ true → size d ≡ suc (size (pop k d))
unfolding has pop size UniqueFields
size-pop k end u h = ground arith
size-pop k (field i w rest) (new, uw, u) h =
    ground (arith, eq_iff i k, size-pop k rest u, pop_fresh k rest)

-- A dict whose keys another one has is no larger, and the same keys make it as large.
pub size-le : (d e : Fields) → UniqueFields d → UniqueFields e → KeysIn d e → size d ≤ size e
unfolding has size UniqueFields
size-le end e ud ue h = omega arith
size-le (field k v rest) e (new, uv, ud) ue h = omega (
  arith,
  size-pop k e ue (h k (rw (eq_refl k))),
  size-le rest (pop k e) ud (pop-UniqueFields k e ue)
      λ j m. ground (arith, has-pop k j e, h j, eq_iff k j),
)

-- If the sizes agree too, no key of the larger one is missing.
pub KeysIn-of_size :
    (d e : Fields) → UniqueFields d → UniqueFields e → KeysIn d e → size d ≡ size e → KeysIn e d
unfolding has size UniqueFields
KeysIn-of_size end end ud ue h s j m = m
KeysIn-of_size end (field i w more) ud ue h s j m = absurd (omega arith)
KeysIn-of_size (field k v rest) e (new, uv, ud) ue h s j m =
    let narrow : KeysIn rest (pop k e) = λ i n. ground (arith, has-pop k i e, h i, eq_iff k i) in
    let smaller : size rest ≡ size (pop k e) =
      omega (arith, size-pop k e ue (h k (rw (eq_refl k)))) in
    ground (
      arith,
      has-pop k j e,
      KeysIn-of_size rest (pop k e) ud (pop-UniqueFields k e ue) narrow smaller j,
    )
