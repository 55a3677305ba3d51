-- ===== src/Streaming/Args.antt =====
-- The FFmpeg commands of the streaming (api/streaming.rs, `live_video_args`, `vod_video_args`,
-- `audio_args` and the `build` closures).
use xtremflow.Base.{
  String, Bool, true, false, not, ◌&&◌, Option, none, some, List, [], ◌∷◌, ◌++◌, ℕ, if◌then◌else◌,
  str_eq, ltb,
}

unfoldable pub sanitize_quality : Option String → String
sanitize_quality none = "high"
sanitize_quality (some q) =
    if str_eq q "source"
    then "source"
    else if str_eq q "medium"
    then "medium"
    else if str_eq q "low"
    then "low"
    else "high"

unfoldable pub live_video_args : String → Bool → List String
live_video_args quality gpu =
    if str_eq quality "source"
    then "-c:v" ∷ "copy" ∷ []
    else if str_eq quality "medium"
    then if gpu
      then "-c:v" ∷ "h264_nvenc" ∷ "-preset" ∷ "p4" ∷ "-tune" ∷ "hq" ∷ "-b:v" ∷ "3000k" ∷ "-maxrate"
        ∷ "4500k" ∷ "-bufsize" ∷ "6000k" ∷ "-profile:v" ∷ "high" ∷ "-level" ∷ "4.0" ∷ "-pix_fmt"
        ∷ "yuv420p" ∷ "-g" ∷ "50" ∷ []
      else "-c:v" ∷ "libx264" ∷ "-preset" ∷ "veryfast" ∷ "-tune" ∷ "zerolatency" ∷ "-profile:v"
        ∷ "high" ∷ "-level" ∷ "4.0" ∷ "-b:v" ∷ "3000k" ∷ "-maxrate" ∷ "4500k" ∷ "-bufsize" ∷ "6000k"
        ∷ "-pix_fmt" ∷ "yuv420p" ∷ "-g" ∷ "50" ∷ []
    else if str_eq quality "low"
    then if gpu
      then "-c:v" ∷ "h264_nvenc" ∷ "-preset" ∷ "p4" ∷ "-b:v" ∷ "1500k" ∷ "-maxrate" ∷ "2000k"
        ∷ "-bufsize" ∷ "3000k" ∷ "-vf" ∷ "scale=-2:720" ∷ "-pix_fmt" ∷ "yuv420p" ∷ "-g" ∷ "50" ∷ []
      else "-c:v" ∷ "libx264" ∷ "-preset" ∷ "veryfast" ∷ "-tune" ∷ "zerolatency" ∷ "-b:v" ∷ "1500k"
        ∷ "-maxrate" ∷ "2000k" ∷ "-bufsize" ∷ "3000k" ∷ "-vf" ∷ "scale=-2:720" ∷ "-pix_fmt"
        ∷ "yuv420p" ∷ "-g" ∷ "50" ∷ []
    else if gpu
    then "-c:v" ∷ "h264_nvenc" ∷ "-preset" ∷ "p4" ∷ "-tune" ∷ "hq" ∷ "-b:v" ∷ "8000k" ∷ "-maxrate"
      ∷ "12000k" ∷ "-bufsize" ∷ "16000k" ∷ "-profile:v" ∷ "high" ∷ "-level" ∷ "4.0" ∷ "-pix_fmt"
      ∷ "yuv420p" ∷ "-g" ∷ "50" ∷ []
    else "-c:v" ∷ "libx264" ∷ "-preset" ∷ "veryfast" ∷ "-tune" ∷ "zerolatency" ∷ "-profile:v"
      ∷ "high" ∷ "-level" ∷ "4.0" ∷ "-b:v" ∷ "6000k" ∷ "-maxrate" ∷ "8000k" ∷ "-bufsize" ∷ "12000k"
      ∷ "-pix_fmt" ∷ "yuv420p" ∷ "-g" ∷ "50" ∷ []

unfoldable pub vod_video_args : String → Bool → List String
vod_video_args quality gpu =
    if str_eq quality "source"
    then "-c:v" ∷ "copy" ∷ []
    else if str_eq quality "medium"
    then if gpu
      then "-c:v" ∷ "h264_nvenc" ∷ "-preset" ∷ "p4" ∷ "-tune" ∷ "hq" ∷ "-rc" ∷ "cbr" ∷ "-b:v"
        ∷ "2500k" ∷ "-maxrate" ∷ "3000k" ∷ "-bufsize" ∷ "5000k" ∷ "-g" ∷ "48" ∷ "-bf" ∷ "2"
        ∷ "-pix_fmt" ∷ "yuv420p" ∷ []
      else "-c:v" ∷ "libx264" ∷ "-preset" ∷ "fast" ∷ "-crf" ∷ "23" ∷ "-maxrate" ∷ "6000k"
        ∷ "-bufsize" ∷ "12000k" ∷ "-pix_fmt" ∷ "yuv420p" ∷ "-g" ∷ "48" ∷ "-threads" ∷ "0" ∷ []
    else if str_eq quality "low"
    then if gpu
      then "-c:v" ∷ "h264_nvenc" ∷ "-preset" ∷ "p4" ∷ "-rc" ∷ "cbr" ∷ "-b:v" ∷ "1500k" ∷ "-maxrate"
        ∷ "2000k" ∷ "-bufsize" ∷ "3000k" ∷ "-vf" ∷ "scale=-2:720" ∷ "-g" ∷ "48" ∷ "-pix_fmt"
        ∷ "yuv420p" ∷ []
      else "-c:v" ∷ "libx264" ∷ "-preset" ∷ "fast" ∷ "-crf" ∷ "26" ∷ "-maxrate" ∷ "3000k"
        ∷ "-bufsize" ∷ "6000k" ∷ "-vf" ∷ "scale=-2:720" ∷ "-pix_fmt" ∷ "yuv420p" ∷ "-g" ∷ "48"
        ∷ "-threads" ∷ "0" ∷ []
    else if gpu
    then "-c:v" ∷ "h264_nvenc" ∷ "-preset" ∷ "p4" ∷ "-tune" ∷ "hq" ∷ "-rc" ∷ "cbr" ∷ "-b:v"
      ∷ "4000k" ∷ "-maxrate" ∷ "4500k" ∷ "-bufsize" ∷ "8000k" ∷ "-g" ∷ "48" ∷ "-bf" ∷ "2"
      ∷ "-pix_fmt" ∷ "yuv420p" ∷ []
    else "-c:v" ∷ "libx264" ∷ "-preset" ∷ "medium" ∷ "-crf" ∷ "18" ∷ "-maxrate" ∷ "12000k"
      ∷ "-bufsize" ∷ "24000k" ∷ "-pix_fmt" ∷ "yuv420p" ∷ "-g" ∷ "48" ∷ "-threads" ∷ "0" ∷ []

unfoldable pub audio_args : Bool → List String
audio_args with_filters =
    "-c:a"
    ∷ "aac"
    ∷ "-b:a"
    ∷ "192k"
    ∷ "-ac"
    ∷ "2"
    ∷ "-ar"
    ∷ "48000"
    ∷ "-af"
    ∷ (if with_filters
        then "pan=stereo|FL=1.0*FL+0.707*FC+0.5*BL+0.5*SL+0.5*LFE|FR=1.0*FR+0.707*FC+0.5*BR+0.5*SR+0.5*LFE,dynaudnorm=f=150:g=15"
        else "aresample=async=1")
    ∷ []

abbrev pub quiet : List String
quiet = "-hide_banner" ∷ "-loglevel" ∷ "warning" ∷ []

abbrev pub cuda : Bool → List String
cuda gpu = if gpu then "-hwaccel" ∷ "cuda" ∷ [] else []

abbrev pub live_input : List String
live_input =
    "-headers" ∷ "User-Agent: VLC/3.0.18 LibVLC/3.0.18\r\n" ∷ "-reconnect" ∷ "1"
    ∷ "-reconnect_streamed" ∷ "1" ∷ "-reconnect_at_eof" ∷ "1" ∷ "-reconnect_delay_max" ∷ "10"
    ∷ "-rw_timeout" ∷ "30000000" ∷ "-fflags" ∷ "nobuffer" ∷ "-probesize" ∷ "1000000"
    ∷ "-analyzeduration" ∷ "1000000" ∷ "-i" ∷ []

abbrev pub live_output : List String
live_output =
    "-f" ∷ "hls" ∷ "-hls_init_time" ∷ "1" ∷ "-hls_time" ∷ "2" ∷ "-hls_list_size" ∷ "10"
    ∷ "-hls_flags" ∷ "delete_segments+independent_segments" ∷ "-hls_segment_type" ∷ "mpegts"
    ∷ "-hls_segment_filename" ∷ "seg_%03d.ts" ∷ "playlist.m3u8" ∷ []

-- `build` of live_playlist.
unfoldable pub live_args : String → String → Bool → List String
unfolding live_video_args audio_args
live_args quality target gpu =
    quiet
    ++ cuda gpu
    ++ live_input
    ++ target ∷ live_video_args quality gpu
    ++ audio_args false
    ++ live_output

abbrev pub vod_input : List String
vod_input =
    "-headers" ∷ "User-Agent: VLC/3.0.18 LibVLC/3.0.18\r\n" ∷ "-reconnect" ∷ "1"
    ∷ "-reconnect_at_eof" ∷ "1" ∷ "-reconnect_streamed" ∷ "1" ∷ "-reconnect_delay_max" ∷ "10"
    ∷ "-rw_timeout" ∷ "30000000" ∷ "-timeout" ∷ "30000000" ∷ "-analyzeduration" ∷ "2000000"
    ∷ "-probesize" ∷ "5000000" ∷ "-i" ∷ []

abbrev pub event_output : List String
event_output =
    "-f" ∷ "hls" ∷ "-hls_time" ∷ "4" ∷ "-hls_list_size" ∷ "0" ∷ "-hls_playlist_type" ∷ "event"
    ∷ "-hls_allow_cache" ∷ "1" ∷ "-hls_flags" ∷ "independent_segments" ∷ "-hls_segment_type"
    ∷ "mpegts" ∷ "-hls_segment_filename" ∷ "segment_%03d.ts" ∷ "-start_number" ∷ "0"
    ∷ "playlist.m3u8" ∷ []

-- `build` of vod_playlist.
unfoldable pub vod_args : String → String → Bool → List String
unfolding vod_video_args audio_args
vod_args quality target gpu =
    quiet
    ++ cuda gpu
    ++ vod_input
    ++ target ∷ vod_video_args quality gpu
    ++ audio_args (not (str_eq quality "source"))
    ++ event_output

abbrev pub seek : (ℕ → String) → ℕ → List String
seek show start = if ltb 0 start then "-ss" ∷ show start ∷ [] else []

-- The video of a recording.
unfoldable pub recording_video_args : Bool → Bool → List String
recording_video_args copy_video gpu =
    if copy_video
    then "-c:v" ∷ "copy" ∷ []
    else if gpu
    then "-c:v" ∷ "h264_nvenc" ∷ "-preset" ∷ "p4" ∷ "-tune" ∷ "hq" ∷ "-rc" ∷ "cbr" ∷ "-b:v"
      ∷ "3000k" ∷ "-maxrate" ∷ "3500k" ∷ "-bufsize" ∷ "6000k" ∷ "-g" ∷ "48" ∷ "-bf" ∷ "2"
      ∷ "-pix_fmt" ∷ "yuv420p" ∷ []
    else "-c:v" ∷ "libx264" ∷ "-preset" ∷ "veryfast" ∷ "-crf" ∷ "20" ∷ "-maxrate" ∷ "12000k"
      ∷ "-bufsize" ∷ "24000k" ∷ "-pix_fmt" ∷ "yuv420p" ∷ "-g" ∷ "48" ∷ "-threads" ∷ "0" ∷ []

-- `build` of recording_playlist; `show` writes a number.
unfoldable pub recording_args : (ℕ → String) → ℕ → String → Bool → Bool → List String
unfolding recording_video_args audio_args
recording_args show start file copy_video wanted =
    let gpu : Bool = not copy_video && wanted in
    quiet
    ++ cuda gpu
    ++ seek show start
    ++ "-i" ∷ file ∷ recording_video_args copy_video gpu
    ++ audio_args true
    ++ event_output
