-- ===== src/Transcode/Profile.antt =====
-- internal/core/transcode/profile.go. An `int` and a duration (in nanoseconds) are integers.
use tvr.Base.{
  Bool, false, ◌&&◌, ◌||◌, ◌≡◌, refl, inl, inr, arith, if◌then◌else◌, Text, codes, is_empty,
  trim_space, Bool-cases, trim_space_idem,
}
use tvr.Base.Int.{ℤ, pos, ltb_ℤ, leb_ℤ, ◌≤ℤ◌, ◌<ℤ◌}

pub record Profile : Type 0 where
  pub ffmpeg_path : Text
  pub video_crf : ℤ
  pub video_preset : Text
  pub audio_bitrate_kbps : ℤ
  pub max_height : ℤ
  pub startup_timeout : ℤ

unfoldable pub default_profile : Profile
default_profile = record {
  ffmpeg_path = codes "ffmpeg";
  video_crf = pos 23;
  video_preset = codes "veryfast";
  audio_bitrate_kbps = pos 128;
  max_height = pos 0;
  startup_timeout = pos 30_000_000_000;
}

abbrev pub is_zero : ℤ → Bool
is_zero a = leb_ℤ a (pos 0) && leb_ℤ (pos 0) a

-- A profile in which nothing of these was set.
abbrev pub is_unset : Profile → Bool
is_unset p =
    is_zero p.video_crf
    && is_empty (trim_space p.video_preset)
    && is_zero p.audio_bitrate_kbps
    && is_zero p.startup_timeout

abbrev pub text_or : Text → Text → Text
text_or t d = if is_empty (trim_space t) then d else trim_space t

abbrev pub positive_or : ℤ → ℤ → ℤ
positive_or a d = if leb_ℤ a (pos 0) then d else a

abbrev pub crf_or : Bool → ℤ → ℤ → ℤ
crf_or unset crf d = if unset then d else if ltb_ℤ crf (pos 0) || ltb_ℤ (pos 51) crf then d else crf

unfoldable pub normalize : Profile → Profile
unfolding default_profile
normalize p =
    let def = default_profile in
    record {
      ffmpeg_path = text_or p.ffmpeg_path def.ffmpeg_path;
      video_crf = crf_or (is_unset p) p.video_crf def.video_crf;
      video_preset = text_or p.video_preset def.video_preset;
      audio_bitrate_kbps = positive_or p.audio_bitrate_kbps def.audio_bitrate_kbps;
      max_height = if ltb_ℤ p.max_height (pos 0) then pos 0 else p.max_height;
      startup_timeout = positive_or p.startup_timeout def.startup_timeout;
    }

-- What the encoder needs of its profile.
pub record IsUsable (p : Profile) : Type 0 where
  pub has_path : is_empty (trim_space p.ffmpeg_path) ≡ false
  pub has_preset : is_empty (trim_space p.video_preset) ≡ false
  pub path_trimmed : trim_space p.ffmpeg_path ≡ p.ffmpeg_path
  pub preset_trimmed : trim_space p.video_preset ≡ p.video_preset
  pub crf_low : pos 0 ≤ℤ p.video_crf
  pub crf_high : p.video_crf ≤ℤ pos 51
  pub bitrate_positive : pos 0 <ℤ p.audio_bitrate_kbps
  pub height_low : pos 0 ≤ℤ p.max_height
  pub timeout_positive : pos 0 <ℤ p.startup_timeout

text_or-is_empty :
    (t d : Text) → is_empty (trim_space d) ≡ false → is_empty (trim_space (text_or t d)) ≡ false
text_or-is_empty t d h = elim (Bool-cases (is_empty (trim_space t))) [
  | inl e ↦ rw e h
  | inr e ↦ rw e (rw (trim_space_idem t) e)
]

text_or-trim : (t d : Text) → trim_space d ≡ d → trim_space (text_or t d) ≡ text_or t d
text_or-trim t d h = elim (Bool-cases (is_empty (trim_space t))) [
  | inl e ↦ rw e h
  | inr e ↦ rw e (trim_space_idem t)
]

-- Every field of a normalised profile is usable, whatever was stored.
pub normalize-IsUsable : (p : Profile) → IsUsable (normalize p)
unfolding normalize
normalize-IsUsable p = record {
  has_path = text_or-is_empty p.ffmpeg_path (codes "ffmpeg") (unfold trim_space in refl);
  has_preset = text_or-is_empty p.video_preset (codes "veryfast") (unfold trim_space in refl);
  path_trimmed = text_or-trim p.ffmpeg_path (codes "ffmpeg") (unfold trim_space in refl);
  preset_trimmed = text_or-trim p.video_preset (codes "veryfast") (unfold trim_space in refl);
  crf_low = ground arith;
  crf_high = ground arith;
  bitrate_positive = ground arith;
  height_low = ground arith;
  timeout_positive = ground arith;
}

-- A usable profile is left as it is.
pub normalize-IsUsable-eq : (p : Profile) → IsUsable p → normalize p ≡ p
unfolding normalize
normalize-IsUsable-eq p h = ground arith
