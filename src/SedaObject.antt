-- ===== src/SedaObject.antt =====
-- seda_object.h and seda_object.cpp: an object that counts its references. Only redisClient
-- derives from it, and its count is not used.
use seda_framework.Base.{
  ℕ, zero, suc, ◌+◌, ◌-◌, ◌^◌, Option, none, some, List, [], ◌∷◌, ◌==◌, if◌then◌else◌,
}
use seda_framework.Base.Memory.{◌>>=◌}
pub mod Counting
mod Tests

-- The `refcount` of a sedaObject, which is never negative, until it is deleted.
pub data SedaObject : Type 0 where
  alive : ℕ → SedaObject
  deleted : SedaObject

-- sedaObject::sedaObject
abbrev pub seda_object : SedaObject
seda_object = alive 0

-- An `int` that is incremented past its end, and a use after the deletion, are undefined.
unfoldable pub incr_ref_count : SedaObject → Option SedaObject
incr_ref_count (alive refcount) =
    if refcount == 2 ^ 31 - 1 then none else some (alive (refcount + 1))
incr_ref_count deleted = none

unfoldable pub decr_ref_count : SedaObject → Option SedaObject
decr_ref_count (alive zero) = some (alive zero)
decr_ref_count (alive (suc zero)) = some deleted
decr_ref_count (alive (suc (suc n))) = some (alive (suc n))
decr_ref_count deleted = none

unfoldable pub reset_refcount : SedaObject → Option SedaObject
reset_refcount (alive refcount) = some (alive 0)
reset_refcount deleted = none

-- What is done to the count.
pub data RefCall : Type 0 where
  incr decr : RefCall

abbrev pub run : List RefCall → SedaObject → Option SedaObject
run [] o = some o
run (incr ∷ calls) o = incr_ref_count o >>= run calls
run (decr ∷ calls) o = decr_ref_count o >>= run calls
