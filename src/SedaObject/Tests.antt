-- ===== src/SedaObject/Tests.antt =====
-- Objects that are counted.
use seda_framework.Base.{◌≡◌, refl, some, [], ◌∷◌}
use seda_framework.SedaObject.{
  seda_object, alive, decr_ref_count, reset_refcount, incr, decr, run, incr_ref_count, deleted,
}

-- Taken twice and given back twice.
twice : run (incr ∷ incr ∷ decr ∷ decr ∷ []) seda_object ≡ some deleted
unfolding incr_ref_count decr_ref_count
twice = refl

-- An object that nobody has taken is not deleted, and one whose count is reset is not given back.
untaken : run (decr ∷ []) seda_object ≡ some (alive 0)
unfolding decr_ref_count
untaken = refl

reset : reset_refcount (alive 3) ≡ some (alive 0)
unfolding reset_refcount
reset = refl
