-- ===== src/Examples/Matching.antt =====
-- The theorem on the tracker of src/modules/moMunkresBlobTrackerModule.cpp, with a matching that pairs
-- the first blobs.
use movid.Base.{
  ℕ, zero, ◌≢◌, ap, suc, ◌+◌, ◌≤◌, ℤ, pos, negsuc, refl, ◌≡◌, some, List, [], ◌∷◌, codes, length,
  All, arith,
}
use movid.Base.Dict.{text_key}
use movid.Property.{new_property, convert_to_double}
use movid.Tracker.{Tracker, update_tracker}
use movid.Tracker.Update.{Remembers}
use movid.Tracker.Total.{IsReady}
use movid.Tracker.Munkres.{Matching, munkres_track_blobs}
use movid.Tracker.Munkres.Matches.{IsInjective, IsAssignment}
use movid.Tracker.Munkres.Total.{IsBelow, Fills, munkres_update}
use movid.Examples.Objects.{whole}
use movid.Examples.Tracking.{
  tracker, next, next-Counts, known-IsTracked, tracker-Remembers, known-IsPlain, found_at-IsFound,
  seen,
}

-- A matching that gives the first new blob the first old one, and no other blob any.
abbrev unmatched : ℕ → List ℤ
unmatched zero = []
unmatched (suc n) = negsuc 0 ∷ unmatched n

abbrev first_match : ℕ → ℕ → List ℤ
first_match zero sn = []
first_match (suc n) zero = unmatched (suc n)
first_match (suc n) (suc s) = pos 0 ∷ unmatched n

abbrev matching : Matching
matching = record {
  dim_finger = 32;
  dist2 = λ dx dy. dx;
  mtdev_match = λ A nn sn. first_match nn sn;
}

unmatched_lem :
    (n sn : ℕ)
    → IsInjective (unmatched n)
      × All (λ z. z ≢ pos 0) (unmatched n)
      × (length (unmatched n) ≡ n)
      × All (IsBelow sn) (unmatched n)
unmatched_lem zero sn = (tt, tt, refl, tt)
unmatched_lem (suc n) sn =
    let (a, b, c, d) = unmatched_lem n sn in (a, ((λ e. cc), b), ap suc c, (tt, d))

first_match-IsInjective : (nn sn : ℕ) → IsInjective (first_match nn sn)
first_match-IsInjective zero sn = tt
first_match-IsInjective (suc n) zero = (unmatched_lem n 0).0
first_match-IsInjective (suc n) (suc s) = ((unmatched_lem n 0).1, (unmatched_lem n 0).0)

first_match_fills :
    (nn sn : ℕ) → (length (first_match nn sn) ≡ nn) × All (IsBelow sn) (first_match nn sn)
first_match_fills zero sn = (refl, tt)
first_match_fills (suc n) zero = (ap suc (unmatched_lem n 0).2, (tt, (unmatched_lem n 0).3))
first_match_fills (suc n) (suc s) =
    (ap suc (unmatched_lem n (suc s)).2, (omega arith, (unmatched_lem n (suc s)).3))

matching-IsAssignment : IsAssignment matching
matching-IsAssignment A nn sn = first_match-IsInjective nn sn

matching-Fills : Fills matching
matching-Fills A nn sn = first_match_fills nn sn

munkres_update_example :
    (u : Tracker) × (k : ℕ) × (update_tracker
        (munkres_track_blobs matching next)
        tracker
        (pos 1)
        seen
      ≡ some (u, pos k))
    × (1 ≤ k)
    × (k ≤ 1 + 2)
    × Remembers k u
    × All IsReady u.old_blobs
munkres_update_example =
    munkres_update matching next 46 tracker 1 seen matching-IsAssignment matching-Fills next-Counts
      (unfold new_property convert_to_double in refl) tracker-Remembers
      ((known-IsTracked, known-IsPlain), tt)
      (found_at-IsFound (codes "5") (codes "6"), (found_at-IsFound (codes "90") (codes "90"), tt))
      (omega arith) (omega arith) (omega arith)
