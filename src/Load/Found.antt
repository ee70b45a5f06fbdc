-- ===== src/Load/Found.antt =====
-- crates/servicrab-core/src/load.rs: `discover_config`, against the directories above.
use servicrab.Base.{
  ℕ, zero, suc, ◌<◌, true, false, none, some, Text, length, if_ind, match_option_ind, Result, ok,
  err, Returns, Returns-map, ◌≡◌, refl, arith, subst,
}
use servicrab.Errors.{ConfigError}
use servicrab.Validation.{Host}
use servicrab.Load.{config_file, discover_from, discover_config}

-- The second directory is the first, or above it.
pub data IsAbove (host : Host) : Text → Text → Type 0 where
  same_dir : (dir : Text) → IsAbove host dir dir
  above :
      (dir up top : Text) → host.parent dir ≡ some up → IsAbove host up top → IsAbove host dir top

-- The file of the nearest directory that has one, or no directory has one.
abbrev pub IsNearest : Host → Text → Result ConfigError Text → Type 0
IsNearest host start (ok path) =
    (dir : Text) × (path ≡ config_file dir)
    × (host.is_file path ≡ true)
    × IsAbove host start dir
    × ((other : Text)
        → IsAbove host start other
        → host.is_file (config_file other) ≡ true
        → IsAbove host dir other)
IsNearest host start (err e) =
    (dir : Text) → IsAbove host start dir → host.is_file (config_file dir) ≡ false

module _ (host : Host) where
  -- A directory without the file is passed over.
  IsNearest-up :
      (dir up : Text)
      → host.is_file (config_file dir) ≡ false
      → host.parent dir ≡ some up
      → (r : Result ConfigError Text) → IsNearest host up r
      → IsNearest host dir r
  IsNearest-up dir up absent parent (ok path) (found, at, is_there, way, nearest) = (
    found,
    at,
    is_there,
    above dir up found parent way,
    (λ other far has. from_here other far has),
  )
    where
      from_here :
          (other : Text)
          → IsAbove host dir other
          → host.is_file (config_file other) ≡ true
          → IsAbove host found other
      from_here _ (same_dir _) has = absurd cc
      from_here other (above _ up2 _ parent2 far) has =
          let equal : up2 ≡ up = cc in
          nearest other (subst (λ d. IsAbove host d other) equal far) has
  IsNearest-up dir up absent parent (err e) none_there = none_up
    where
      none_up : (other : Text) → IsAbove host dir other → host.is_file (config_file other) ≡ false
      none_up _ (same_dir _) = absent
      none_up other (above _ up2 _ parent2 far) =
          let equal : up2 ≡ up = cc in
          none_there other (subst (λ d. IsAbove host d other) equal far)

  -- A directory without the file and without a parent.
  nowhere :
      (dir : Text)
      → host.is_file (config_file dir) ≡ false
      → host.parent dir ≡ none
      → (other : Text) → IsAbove host dir other
      → host.is_file (config_file other) ≡ false
  nowhere dir absent alone _ (same_dir _) = absent
  nowhere dir absent alone other (above _ up _ parent far) = absurd cc

  discover_from-IsNearest :
      (fuel : ℕ) (start dir : Text)
      → ((d up : Text) → host.parent d ≡ some up → length up < length d)
      → length dir < fuel
      → Returns (IsNearest host dir) (discover_from host fuel start dir)
  unfolding discover_from
  discover_from-IsNearest zero start dir shorter enough = absurd (omega (arith, enough))
  discover_from-IsNearest (suc fuel) start dir shorter enough =
      if_ind (Returns (IsNearest host dir)) (host.is_file (config_file dir))
        (λ here. (dir, refl, here, same_dir dir, (λ other far has. far)))
        λ absent.
          match_option_ind (Returns (IsNearest host dir)) (host.parent dir)
            (λ alone. nowhere dir absent alone)
            λ up parent.
              Returns-map (IsNearest host up) (IsNearest host dir)
                (discover_from host fuel start up) (IsNearest-up dir up absent parent)
                (discover_from-IsNearest fuel start up shorter
                  (omega (arith, shorter dir up parent, enough)))

-- Where a parent has a shorter path than its directory, and the fuel is more than the length of the
-- start's, the search ends: with the file of the nearest directory above that has one, or with an
-- error if none has.
pub discover_config-IsNearest :
    (host : Host) (fuel : ℕ) (start : Text)
    → ((d up : Text) → host.parent d ≡ some up → length up < length d)
    → length start < fuel
    → Returns (IsNearest host start) (discover_config host fuel start)
unfolding discover_config
discover_config-IsNearest host fuel start shorter enough =
    discover_from-IsNearest host fuel start start shorter enough
