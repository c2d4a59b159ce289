-- ===== src/Mirror/Agreement.antt =====
-- After a reply the client of server/rtimvClientBase.cpp has what the server has.
use rtimv.Common.{
  false, not, if_both, if_cases, ◌&&◌, ◌||◌, ℕ, ◌<◌, ◌≡◌, refl, some, Bool, arith, ap,
}
use rtimv.Common.Int.{ℤ, pos, negsuc, ◌≤ℤ◌}
use rtimv.Box.{Box}
use rtimv.Client.{Floats}
use rtimv.Picture.Change.{at_least_one}
use rtimv.Client.Scale.{Scale, image_scale}
use rtimv.Mirror.Codes.{colorbar_read, colormode_read, stretch_read, hp_filter_read, lp_filter_read}
use rtimv.Mirror.Message.{Stream, as_u32, wire_box, populate_image_reply}
use rtimv.Mirror.Reception.{Mirror, read_box, or_else, receive}

-- The corner fits a `uint32_t`.
abbrev IsCorner : ℤ → Type 0
IsCorner c = (pos 0 ≤ℤ c) × (c ≤ℤ pos 4294967295)

pub record IsWireBox (b : Box) : Type 0 where
  pub left : IsCorner b.i0
  pub right : IsCorner b.i1
  pub low : IsCorner b.j0
  pub high : IsCorner b.j1

-- What the client keeps is what the server has.
pub record Mirrors {F D : Type 0} (narrow : D → F) (s : Stream F D) (m : Mirror F D) : Type 0 where
  pub size : (m.nx ≡ s.picture.nx) × (m.ny ≡ s.picture.ny) × (m.nz ≡ s.picture.nz)
  pub image :
      (m.image_no ≡ s.image_no) × (m.image_time ≡ s.image_time) × (m.fps_est ≡ narrow s.fps_est)
  pub saturated : m.saturated ≡ s.picture.saturated
  pub range : (m.min_image ≡ s.picture.min_image) × (m.max_image ≡ s.picture.max_image)
  pub scale : (m.min_scale.value ≡ s.picture.min_scale) × (m.max_scale.value ≡ s.picture.max_scale)
  pub colors :
      (m.colorbar ≡ some s.colorbar)
      × (m.mode ≡ some s.picture.mode)
      × (m.stretch ≡ some s.picture.stretch)
  pub switches :
      (m.auto_scale ≡ s.picture.auto_scale)
      × (m.subtract_dark ≡ s.picture.subtract_dark)
      × (m.apply_mask ≡ s.picture.apply_mask)
      × (m.apply_sat_mask ≡ s.picture.apply_sat_mask)
  pub numbers :
      (m.image_timeout ≡ s.image_timeout) × (m.cube_dir ≡ s.cube_dir) × (m.quality ≡ s.quality)
  pub high_pass :
      (m.hp_filter ≡ s.hp_filter)
      × (m.hpf_fw ≡ s.hpf_fw)
      × (m.apply_hp ≡ s.picture.filters.apply_hp)
  pub low_pass :
      (m.lp_filter ≡ s.lp_filter)
      × (m.lpf_fw ≡ s.lpf_fw)
      × (m.apply_lp ≡ s.picture.filters.apply_lp)
  pub transform : m.apply_mtf ≡ s.picture.filters.apply_mtf
  pub stats_box :
      (m.stats_box ≡ s.picture.stats_box.enabled)
      × (m.stats_corners ≡ s.picture.stats_box.box)
      × (m.stats_min ≡ s.picture.stats_box.min)
      × (m.stats_max ≡ s.picture.stats_box.max)
      × (m.stats_mean ≡ s.picture.stats_box.mean)
      × (m.stats_median ≡ s.picture.stats_box.median)
  pub color_box :
      (m.color_corners ≡ s.picture.color_box)
      × (m.color_min ≡ s.picture.color_min)
      × (m.color_max ≡ s.picture.color_max)

corner_read : (c : ℤ) → IsCorner c → pos (as_u32 c) ≡ c
corner_read (pos n) h = ap pos (omega arith)
corner_read (negsuc n) h = absurd (omega arith)

box_read : (b : Box) → IsWireBox b → read_box (wire_box b) ≡ b
box_read b h = λ i. record {
  i0 = corner_read b.i0 h.left i;
  i1 = corner_read b.i1 h.right i;
  j0 = corner_read b.j0 h.low i;
  j1 = corner_read b.j1 h.high i;
}

one_stays : (n : ℕ) → 0 < n → at_least_one n ≡ n
one_stays n h = ground arith

-- With no value that waits, the scale is that of the picture.
scale_shown :
    {F : Type 0} (matched : F → F → Bool) (v : F) (s : Scale F)
    → s.queued ≡ false
    → (image_scale matched v s).value ≡ v
unfolding image_scale
scale_shown {F = F} matched v s e =
    if_both (λ (t : Scale F). t.value ≡ v)
      (s.awaits_image && (not (matched v s.prev_at_send) || matched v s.inflight))
      (if_cases (λ (t : Scale F). t.value ≡ v) (s.queued && not s.pending && not s.shutting_down)
        (λ t. absurd (ground arith)) (λ t. refl))
      refl

-- If the user of the client has set no value of the scale that still waits to be sent, there is an image
-- with pixels, and no corner of a box is negative or above 2 ^ 32 - 1: whatever the client had else, after
-- a reply that the server filled it has the server's sizes, ranges, scale, settings and boxes.
pub receive-populate_image_reply :
    {F D : Type 0} (o : Floats F) (narrow : D → F) (matched : F → F → Bool) (has_payload : Bool)
    (s : Stream F D) (m : Mirror F D)
    → m.min_scale.queued ≡ false
    → m.max_scale.queued ≡ false
    → 0 < s.picture.nx
    → 0 < s.picture.ny
    → 0 < s.picture.nz
    → IsWireBox s.picture.stats_box.box
    → IsWireBox s.picture.color_box
    → Mirrors narrow s (receive o narrow matched has_payload (populate_image_reply s) m)
unfolding receive populate_image_reply
receive-populate_image_reply o narrow matched has_payload s m p q x y z b c = record {
  size = (one_stays s.picture.nx x, one_stays s.picture.ny y, one_stays s.picture.nz z);
  image = (refl, refl, refl);
  saturated = refl;
  range = (refl, refl);
  scale = (scale_shown matched _ m.min_scale p, scale_shown matched _ m.max_scale q);
  colors =
      (colorbar_read s.colorbar, colormode_read s.picture.mode, stretch_read s.picture.stretch);
  switches = (refl, refl, refl, refl);
  numbers = (refl, refl, refl);
  high_pass = (ap (λ f. or_else f m.hp_filter) (hp_filter_read s.hp_filter), refl, refl);
  low_pass = (ap (λ f. or_else f m.lp_filter) (lp_filter_read s.lp_filter), refl, refl);
  transform = refl;
  stats_box = (refl, box_read s.picture.stats_box.box b, refl, refl, refl, refl);
  color_box = (box_read s.picture.color_box c, refl, refl);
}
