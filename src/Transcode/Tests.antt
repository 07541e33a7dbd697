-- ===== src/Transcode/Tests.antt =====
-- internal/core/transcode/profile.go on a profile that nothing set.
use tvr.Base.{[], codes, ◌≡◌}
use tvr.Base.Int.{pos, negsuc}
use tvr.Transcode.Profile.{Profile, normalize, IsUsable, normalize-IsUsable, normalize-IsUsable-eq}

abbrev odd_profile : Profile
odd_profile = record {
  ffmpeg_path = codes " /usr/bin/ffmpeg ";
  video_crf = pos 77;
  video_preset = [];
  audio_bitrate_kbps = negsuc 0;
  max_height = negsuc 9;
  startup_timeout = pos 5;
}

normalize-IsUsable_example : IsUsable (normalize odd_profile)
normalize-IsUsable_example = normalize-IsUsable odd_profile

normalize-IsUsable-eq_example : normalize (normalize odd_profile) ≡ normalize odd_profile
normalize-IsUsable-eq_example =
    normalize-IsUsable-eq (normalize odd_profile) normalize-IsUsable_example
