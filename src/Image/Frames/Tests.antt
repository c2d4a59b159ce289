-- ===== src/Image/Frames/Tests.antt =====
-- Frame moves on small cubes.
