-- ===== src/Mirror/Codes.antt =====
-- The codes of the protocol: server/rtimvColorGRPC.hpp and server/rtimvFilterGRPC.hpp. A code that is
-- read as -1 is `none`.
use rtimv.Common.{◌≡◌, refl, Option, none, some}
use rtimv.Stats.{
  GlobalStatsStatus, unavailable, valid, no_image, no_mask, size_mismatch, empty, unsupported,
}
use rtimv.Client.Statistics.{
  WireStatus, wire_unavailable, wire_valid, wire_no_image, wire_no_mask, wire_size_mismatch,
  wire_empty,
}
use rtimv.Picture.State.{
  Stretch, linear, log, pow, sqrt, square, ColorMode, minmaxglobal, minmaxbox, user,
}

pub data Colorbar : Type 0 where
  grey jet hot heat bb bone red green blue : Colorbar

pub data HpFilter : Type 0 where
  hp_none hp_gaussian hp_median hp_mean hp_fourier hp_radprof : HpFilter

pub data LpFilter : Type 0 where
  lp_none lp_gaussian lp_median lp_mean : LpFilter

pub data ColorbarCode : Type 0 where
  colorbar_unknown colorbar_grey colorbar_jet colorbar_hot colorbar_bone colorbar_red : ColorbarCode
  colorbar_green colorbar_blue colorbar_heat colorbar_bb : ColorbarCode

pub data ColormodeCode : Type 0 where
  colormode_unknown colormode_global colormode_box colormode_user : ColormodeCode

pub data StretchCode : Type 0 where
  stretch_unknown stretch_linear stretch_log stretch_pow stretch_sqrt stretch_square : StretchCode

pub data HpFilterCode : Type 0 where
  hpfilter_unknown hpfilter_none hpfilter_gaussian hpfilter_median hpfilter_mean : HpFilterCode
  hpfilter_fourier hpfilter_radprof : HpFilterCode

pub data LpFilterCode : Type 0 where
  lpfilter_unknown lpfilter_none lpfilter_gaussian lpfilter_median lpfilter_mean : LpFilterCode

unfoldable pub colorbar2grpc : Colorbar → ColorbarCode
colorbar2grpc grey = colorbar_grey
colorbar2grpc jet = colorbar_jet
colorbar2grpc hot = colorbar_hot
colorbar2grpc heat = colorbar_heat
colorbar2grpc bb = colorbar_bb
colorbar2grpc bone = colorbar_bone
colorbar2grpc red = colorbar_red
colorbar2grpc green = colorbar_green
colorbar2grpc blue = colorbar_blue

unfoldable pub grpc2colorbar : ColorbarCode → Option Colorbar
grpc2colorbar colorbar_grey = some grey
grpc2colorbar colorbar_jet = some jet
grpc2colorbar colorbar_hot = some hot
grpc2colorbar colorbar_heat = some heat
grpc2colorbar colorbar_bb = some bb
grpc2colorbar colorbar_bone = some bone
grpc2colorbar colorbar_red = some red
grpc2colorbar colorbar_green = some green
grpc2colorbar colorbar_blue = some blue
grpc2colorbar colorbar_unknown = none

unfoldable pub colormode2grpc : ColorMode → ColormodeCode
colormode2grpc minmaxglobal = colormode_global
colormode2grpc minmaxbox = colormode_box
colormode2grpc user = colormode_user

unfoldable pub grpc2colormode : ColormodeCode → Option ColorMode
grpc2colormode colormode_global = some minmaxglobal
grpc2colormode colormode_box = some minmaxbox
grpc2colormode colormode_user = some user
grpc2colormode colormode_unknown = none

unfoldable pub stretch2grpc : Stretch → StretchCode
stretch2grpc linear = stretch_linear
stretch2grpc log = stretch_log
stretch2grpc pow = stretch_pow
stretch2grpc sqrt = stretch_sqrt
stretch2grpc square = stretch_square

unfoldable pub grpc2stretch : StretchCode → Option Stretch
grpc2stretch stretch_linear = some linear
grpc2stretch stretch_log = some log
grpc2stretch stretch_pow = some pow
grpc2stretch stretch_sqrt = some sqrt
grpc2stretch stretch_square = some square
grpc2stretch stretch_unknown = none

unfoldable pub hp_filter2grpc : HpFilter → HpFilterCode
hp_filter2grpc hp_none = hpfilter_none
hp_filter2grpc hp_gaussian = hpfilter_gaussian
hp_filter2grpc hp_median = hpfilter_median
hp_filter2grpc hp_mean = hpfilter_mean
hp_filter2grpc hp_fourier = hpfilter_fourier
hp_filter2grpc hp_radprof = hpfilter_radprof

unfoldable pub grpc2hp_filter : HpFilterCode → Option HpFilter
grpc2hp_filter hpfilter_none = some hp_none
grpc2hp_filter hpfilter_gaussian = some hp_gaussian
grpc2hp_filter hpfilter_median = some hp_median
grpc2hp_filter hpfilter_mean = some hp_mean
grpc2hp_filter hpfilter_fourier = some hp_fourier
grpc2hp_filter hpfilter_radprof = some hp_radprof
grpc2hp_filter hpfilter_unknown = none

unfoldable pub lp_filter2grpc : LpFilter → LpFilterCode
lp_filter2grpc lp_none = lpfilter_none
lp_filter2grpc lp_gaussian = lpfilter_gaussian
lp_filter2grpc lp_median = lpfilter_median
lp_filter2grpc lp_mean = lpfilter_mean

unfoldable pub grpc2lp_filter : LpFilterCode → Option LpFilter
grpc2lp_filter lpfilter_none = some lp_none
grpc2lp_filter lpfilter_gaussian = some lp_gaussian
grpc2lp_filter lpfilter_median = some lp_median
grpc2lp_filter lpfilter_mean = some lp_mean
grpc2lp_filter lpfilter_unknown = none

-- The switch in `populateImageReply`.
unfoldable pub status2grpc : GlobalStatsStatus → WireStatus
status2grpc valid = wire_valid
status2grpc no_image = wire_no_image
status2grpc no_mask = wire_no_mask
status2grpc size_mismatch = wire_size_mismatch
status2grpc empty = wire_empty
status2grpc unavailable = wire_unavailable
status2grpc unsupported = wire_unavailable

pub colorbar_read : (c : Colorbar) → grpc2colorbar (colorbar2grpc c) ≡ some c
unfolding grpc2colorbar colorbar2grpc
colorbar_read grey = refl
colorbar_read jet = refl
colorbar_read hot = refl
colorbar_read heat = refl
colorbar_read bb = refl
colorbar_read bone = refl
colorbar_read red = refl
colorbar_read green = refl
colorbar_read blue = refl

pub colormode_read : (m : ColorMode) → grpc2colormode (colormode2grpc m) ≡ some m
unfolding grpc2colormode colormode2grpc
colormode_read minmaxglobal = refl
colormode_read minmaxbox = refl
colormode_read user = refl

pub stretch_read : (s : Stretch) → grpc2stretch (stretch2grpc s) ≡ some s
unfolding grpc2stretch stretch2grpc
stretch_read linear = refl
stretch_read log = refl
stretch_read pow = refl
stretch_read sqrt = refl
stretch_read square = refl

pub hp_filter_read : (f : HpFilter) → grpc2hp_filter (hp_filter2grpc f) ≡ some f
unfolding grpc2hp_filter hp_filter2grpc
hp_filter_read hp_none = refl
hp_filter_read hp_gaussian = refl
hp_filter_read hp_median = refl
hp_filter_read hp_mean = refl
hp_filter_read hp_fourier = refl
hp_filter_read hp_radprof = refl

pub lp_filter_read : (f : LpFilter) → grpc2lp_filter (lp_filter2grpc f) ≡ some f
unfolding grpc2lp_filter lp_filter2grpc
lp_filter_read lp_none = refl
lp_filter_read lp_gaussian = refl
lp_filter_read lp_median = refl
lp_filter_read lp_mean = refl
