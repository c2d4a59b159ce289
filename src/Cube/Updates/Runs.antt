-- ===== src/Cube/Updates/Runs.antt =====
-- What a run of `updateImages` of src/common/rtimvBase.cpp does.
use rtimv.Common.{
  ℕ, ◌+◌, ◌≡◌, refl, Option, none, some, Bool, true, false, not, ◌||◌, ◌&&◌, List, [], ◌∷◌, ◌++◌,
  ltb, leb, ◌==◌, if◌then◌else◌, if_cases, length, arith,
}
use rtimv.Image.{no_update, age_update, im_update, fps_update}
use rtimv.Cube.Updates.{
  Main, Reading, Reaction, changes_imdata, connects, checks_global_stats, updates_nc, updates_fps,
  updates_age, updates_cube_frame, sets_cube_mode, largest_code, code_of, reacts_if, react_main,
  react_rate, update_images,
}

abbrev pub is_change : Reaction → Bool
is_change changes_imdata = true
is_change _ = false

abbrev pub is_connect : Reaction → Bool
is_connect connects = true
is_connect _ = false

abbrev pub is_check : Reaction → Bool
is_check checks_global_stats = true
is_check _ = false

-- How many pass the test.
abbrev pub tally_by : {A : Type 0} → (A → Bool) → List A → ℕ
tally_by p [] = 0
tally_by p (a ∷ xs) = if p a then 1 + tally_by p xs else tally_by p xs

tally_by-append :
    {A : Type 0} (p : A → Bool) (xs ys : List A)
    → tally_by p (xs ++ ys) ≡ tally_by p xs + tally_by p ys
tally_by-append p [] ys = omega arith
tally_by-append p (a ∷ xs) ys = ground (arith, tally_by-append p xs ys)

abbrev any_news : List (Option ℕ) → Bool
any_news [] = false
any_news (none ∷ cs) = any_news cs
any_news (some c ∷ cs) = leb im_update c || any_news cs

-- The first source reports a new image.
abbrev pub is_main_news : Reading → Bool
is_main_news r = leb im_update (code_of r.image)

-- Some source does.
abbrev pub is_news : Reading → Bool
is_news r = is_main_news r || any_news r.supports

largest_news : (cs : List (Option ℕ)) (u : ℕ) → leb 2 (largest_code cs u) ≡ (leb 2 u || any_news cs)
largest_news [] u = ground arith
largest_news (none ∷ cs) u = largest_news cs u
largest_news (some c ∷ cs) u = ground (arith, largest_news cs (if ltb u c then c else u))

-- A test that only one of the three reactions passes.
record IsTest (p : Reaction → Bool) : Type 0 where
  pub nc : p updates_nc ≡ false
  pub fps : p updates_fps ≡ false
  pub age : p updates_age ≡ false
  pub frame : p updates_cube_frame ≡ false
  pub mode : (b : Bool) → p (sets_cube_mode b) ≡ false

tally_by-reacts_if :
    (p : Reaction → Bool) (b : Bool) (e : Reaction)
    → tally_by p (reacts_if b (e ∷ [])) ≡ (if b && p e then 1 else 0)
tally_by-reacts_if p true e = ground arith
tally_by-reacts_if p false e = refl

rate_quiet : (p : Reaction → Bool) (c : Bool) (u : ℕ) → IsTest p → tally_by p (react_rate c u) ≡ 0
rate_quiet p c u t =
    if_cases (λ es. tally_by p es ≡ 0) (not c) (λ e. rw (t.nc) refl)
      (λ e.
        rw
          (
            tally_by-append p (reacts_if (u == fps_update) (updates_fps ∷ []))
                (reacts_if (u == age_update) (updates_age ∷ [])),
            tally_by-reacts_if p (u == fps_update) updates_fps,
            tally_by-reacts_if p (u == age_update) updates_age,
            t.fps,
            t.age,
          )
          (ground arith))

-- What the first source makes of its new image: a connection, if there was none.
main_number :
    (p : Reaction → Bool) (c : Bool) (m : Option Main)
    → IsTest p
    → tally_by p (react_main c m)
      ≡ (if not c && leb im_update (code_of m) && p connects then 1 else 0)
main_number p true none t = refl
main_number p false none t = refl
main_number p c (some m) t = shape c (leb im_update m.code) (ltb 1 m.nz)
  where
    shape :
        (c a n : Bool)
        → tally_by p (
            reacts_if (a && n) (updates_cube_frame ∷ [])
            ++ reacts_if
                (not c && a)
                (reacts_if n (sets_cube_mode m.default_mode ∷ []) ++ connects ∷ []))
          ≡ (if not c && a && p connects then 1 else 0)
    shape c a n = ground (arith, t.frame, t.mode m.default_mode)

tally_by-if :
    (p : Reaction → Bool) (b : Bool) (es : List Reaction)
    → tally_by p (reacts_if b es) ≡ (if b then tally_by p es else 0)
tally_by-if p true es = refl
tally_by-if p false es = refl

-- All reactions to one reading.
update_number :
    (p : Reaction → Bool) (r : Reading) (c : Bool)
    → IsTest p
    → tally_by p (update_images r c).1
      ≡ (if is_news r && p changes_imdata then 1 else 0)
        + (if not c && is_main_news r && p connects then 1 else 0)
        + (if p checks_global_stats then 1 else 0)
unfolding update_images
update_number p r c t =
    let u = code_of r.image in
    let news = leb im_update u || leb im_update (largest_code r.supports no_update) in
    let es = changes_imdata ∷ react_main c r.image in
    ground (
      arith,
      tally_by-append p (reacts_if news es)
          (checks_global_stats ∷ react_rate (c || leb im_update u) u),
      tally_by-if p news es,
      main_number p c r.image t,
      rate_quiet p (c || leb im_update u) u t,
      largest_news r.supports no_update,
    )

is_change-IsTest : IsTest is_change
is_change-IsTest = record { nc = refl; fps = refl; age = refl; frame = refl; mode = λ b. refl }

is_connect-IsTest : IsTest is_connect
is_connect-IsTest = record { nc = refl; fps = refl; age = refl; frame = refl; mode = λ b. refl }

is_check-IsTest : IsTest is_check
is_check-IsTest = record { nc = refl; fps = refl; age = refl; frame = refl; mode = λ b. refl }

-- The readings one after another.
unfoldable pub run : List Reading → Bool → Bool × List Reaction
run [] c = (c, [])
run (r ∷ rs) c =
    let now = update_images r c in let later = run rs now.0 in (later.0, now.1 ++ later.1)

-- After any readings of the sources, the picture was changed once for each of them in which some source
-- reported a new image, and the statistics were checked once for each. The image is connected if it was
-- or if the first source reported a new image in one of them, and it was connected once then, and never
-- if it was connected before or there was no such report.
pub run_reads :
    (rs : List Reading) (c : Bool)
    → (tally_by is_change (run rs c).1 ≡ tally_by is_news rs)
      × (tally_by is_check (run rs c).1 ≡ length rs)
      × ((run rs c).0 ≡ (c || ltb 0 (tally_by is_main_news rs)))
      × (tally_by is_connect (run rs c).1
          ≡ (if not c && ltb 0 (tally_by is_main_news rs) then 1 else 0))
unfolding run update_images
run_reads [] true = (refl, refl, refl, refl)
run_reads [] false = (refl, refl, refl, refl)
run_reads (r ∷ rs) c =
    let k = run_reads rs (update_images r c).0 in
    let es = (update_images r c).1 in
    let fs = (run rs (update_images r c).0).1 in
    (
      ground (
        arith,
        tally_by-append is_change es fs,
        update_number is_change r c is_change-IsTest,
        k.0,
      ),
      ground
          (arith, tally_by-append is_check es fs, update_number is_check r c is_check-IsTest, k.1),
      ground (arith, k.2),
      ground (
        arith,
        tally_by-append is_connect es fs,
        update_number is_connect r c is_connect-IsTest,
        k.3,
      ),
    )
