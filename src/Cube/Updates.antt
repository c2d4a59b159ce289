-- ===== src/Cube/Updates.antt =====
-- `updateImages` of src/common/rtimvBase.cpp: what follows from the codes that the updates of the
-- sources return.
pub mod Runs
use rtimv.Common.{
  ℕ, ◌+◌, ◌≡◌, refl, sym, ap, ◌∙◌, Option, none, some, Bool, true, false, not, ◌||◌, ◌&&◌, List, [],
  ◌∷◌, ◌++◌, ltb, leb, ◌==◌, if◌then◌else◌, arith,
}
use rtimv.Image.{no_update, age_update, im_update, fps_update}

-- The first source.
pub record Main : Type 0 where
  pub code : ℕ
  pub nz : ℕ
  pub default_mode : Bool

-- `none` is a null pointer.
pub record Reading : Type 0 where
  pub image : Option Main
  pub supports : List (Option ℕ)

pub data Reaction : Type 0 where
  changes_imdata updates_cube_frame connects checks_global_stats : Reaction
  updates_nc updates_fps updates_age : Reaction
  sets_cube_mode : Bool → Reaction

-- The largest of the codes and of `u`.
abbrev pub largest_code : List (Option ℕ) → ℕ → ℕ
largest_code [] u = u
largest_code (none ∷ cs) u = largest_code cs u
largest_code (some c ∷ cs) u = largest_code cs (if ltb u c then c else u)

abbrev pub code_of : Option Main → ℕ
code_of none = no_update
code_of (some m) = m.code

abbrev pub reacts_if : Bool → List Reaction → List Reaction
reacts_if true rs = rs
reacts_if false rs = []

-- A new image of the first source, which then is there.
abbrev pub react_main : Bool → Option Main → List Reaction
react_main connected none = []
react_main connected (some m) =
    reacts_if (leb im_update m.code && ltb 1 m.nz) (updates_cube_frame ∷ [])
    ++ reacts_if (not connected && leb im_update m.code)
        (reacts_if (ltb 1 m.nz) (sets_cube_mode m.default_mode ∷ []) ++ connects ∷ [])

abbrev pub react_rate : Bool → ℕ → List Reaction
react_rate connected u =
    if not connected
    then updates_nc ∷ []
    else reacts_if (u == fps_update) (updates_fps ∷ [])
      ++ reacts_if (u == age_update) (updates_age ∷ [])

-- Whether the image is connected then, and what is done.
unfoldable pub update_images : Reading → Bool → Bool × List Reaction
update_images r connected =
    let u = code_of r.image in
    let then_connected = connected || leb im_update u in
    (
      then_connected,
      reacts_if (leb im_update u || leb im_update (largest_code r.supports no_update))
            (changes_imdata ∷ react_main connected r.image)
          ++ (checks_global_stats ∷ react_rate then_connected u),
    )
