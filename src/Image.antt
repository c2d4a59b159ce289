-- ===== src/Image.antt =====
-- The image sources of common/images, and the update codes of common/rtimvImage.hpp.
pub mod Frames
pub mod Fits
pub mod Directory
pub mod Rate
pub mod Counters
pub mod Shmim
pub mod Mzmq
use rtimv.Common.{ℕ}

abbrev pub no_update : ℕ
no_update = 0

abbrev pub age_update : ℕ
age_update = 1

abbrev pub im_update : ℕ
im_update = 2

abbrev pub fps_update : ℕ
fps_update = 3
