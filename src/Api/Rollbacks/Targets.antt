-- ===== src/Api/Rollbacks/Targets.antt =====
-- backend/isched_GqlExecutor.cpp: which snapshot a rollback goes to.
use isched.Common.{
  ◌≡◌, refl, Bool, true, false, not, ◌&&◌, List, [], ◌∷◌, ◌++◌, Text, text_eq, text_beq_iff, ◌==◌,
  if◌then◌else◌, is_empty, any, all, arith,
}
use isched.Database.Snapshots.{ConfigurationSnapshot}
use isched.Api.Rollbacks.{after_active, first_inactive, rollback_target}

abbrev pub is_inactive : ConfigurationSnapshot → Bool
is_inactive s = not s.is_active

abbrev pub has_no_id : ConfigurationSnapshot → Bool
has_no_id s = is_empty s.id

abbrev pub is_target : Text → ConfigurationSnapshot → Bool
is_target id s = not s.is_active && s.id == id

module _ (id : Text) where
  first_inactive-target :
      (snaps : List ConfigurationSnapshot)
      → first_inactive snaps ≡ id
      → is_empty id ≡ false
      → any (is_target id) snaps ≡ true
  unfolding first_inactive
  first_inactive-target [] h e = cc
  first_inactive-target (s ∷ ss) h e =
      ground (arith, h, e, first_inactive-target ss, text_beq_iff s.id id)

  after_active-target :
      (found : Bool) (snaps : List ConfigurationSnapshot)
      → after_active found snaps ≡ id
      → is_empty id ≡ false
      → any (is_target id) snaps ≡ true
  unfolding after_active
  after_active-target found [] h e = cc
  after_active-target found (s ∷ ss) h e =
      ground (
        arith,
        h,
        e,
        after_active-target true ss,
        after_active-target found ss,
        text_beq_iff s.id id,
      )

  target-inactive :
      (snaps : List ConfigurationSnapshot)
      → any (is_target id) snaps ≡ true
      → any is_inactive snaps ≡ true
  target-inactive [] h = cc
  target-inactive (s ∷ ss) h = ground (arith, h, target-inactive ss)

first_inactive-found :
    (snaps : List ConfigurationSnapshot)
    → any has_no_id snaps ≡ false
    → is_empty (first_inactive snaps) ≡ not (any is_inactive snaps)
unfolding first_inactive
first_inactive-found [] h = refl
first_inactive-found (s ∷ ss) h = ground (arith, h, first_inactive-found ss)

after_active-found :
    (snaps : List ConfigurationSnapshot) → after_active true snaps ≡ first_inactive snaps
unfolding after_active first_inactive
after_active-found [] = refl
after_active-found (s ∷ ss) = ground (arith, after_active-found ss)

after_active-append :
    (newer older : List ConfigurationSnapshot) (current : ConfigurationSnapshot)
    → all is_inactive newer ≡ true
    → current.is_active ≡ true
    → after_active false (newer ++ (current ∷ older)) ≡ first_inactive older
unfolding after_active
after_active-append [] older current h e = ground (arith, e, after_active-found older)
after_active-append (s ∷ newer) older current h e =
    ground (arith, h, e, after_active-append newer older current)

have_ids :
    (newer older : List ConfigurationSnapshot) (current : ConfigurationSnapshot)
    → any has_no_id (newer ++ (current ∷ older)) ≡ false
    → any has_no_id older ≡ false
have_ids [] older current h = ground (arith, h)
have_ids (s ∷ newer) older current h = ground (arith, h, have_ids newer older current)

rollback_target-inactive :
    (snaps : List ConfigurationSnapshot)
    → any has_no_id snaps ≡ false
    → any (is_target (rollback_target snaps)) snaps ≡ any is_inactive snaps
unfolding rollback_target
rollback_target-inactive snaps h = ground (
  arith,
  first_inactive-found snaps h,
  after_active-target (after_active false snaps) false snaps refl,
  first_inactive-target (first_inactive snaps) snaps refl,
  target-inactive (after_active false snaps) snaps,
  target-inactive (first_inactive snaps) snaps,
)

rollback_target-older :
    (newer older : List ConfigurationSnapshot) (current : ConfigurationSnapshot)
    → all is_inactive newer ≡ true
    → current.is_active ≡ true
    → any has_no_id older ≡ false
    → rollback_target (newer ++ (current ∷ older)) ≡ (
        if any is_inactive older
        then first_inactive older
        else first_inactive (newer ++ (current ∷ older)))
unfolding rollback_target
rollback_target-older newer older current h e i =
    ground (arith, after_active-append newer older current h e, first_inactive-found older i)

-- Of snapshots that all have an id, a rollback finds one that is not active exactly if there is one. If
-- one snapshot is active and those before it, which are newer, are not, it goes to the first one after
-- it that is not active, and only if there is none to the first one of all.
pub rollback_target-previous :
    (newer older : List ConfigurationSnapshot) (current : ConfigurationSnapshot)
    → all is_inactive newer ≡ true
    → current.is_active ≡ true
    → any has_no_id (newer ++ (current ∷ older)) ≡ false
    → (any (is_target (rollback_target (newer ++ (current ∷ older)))) (newer ++ (current ∷ older))
        ≡ any is_inactive (newer ++ (current ∷ older)))
      × (rollback_target (newer ++ (current ∷ older)) ≡ (
          if any is_inactive older
          then first_inactive older
          else first_inactive (newer ++ (current ∷ older))))
rollback_target-previous newer older current h e i = (
  rollback_target-inactive (newer ++ (current ∷ older)) i,
  rollback_target-older newer older current h e (have_ids newer older current i),
)
