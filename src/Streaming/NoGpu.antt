-- ===== src/Streaming/NoGpu.antt =====
-- The commands built for the processor and for the GPU.
use xtremflow.Base.{
  ℕ, ◌≡◌, refl, ap, ◌∙◌, All, All-map, ℤ, ◌<◌, ◌+◌, String, Bool, true, false, not, ◌&&◌, ◌||◌,
  Option, List, [], ◌∷◌, ◌++◌, arith, if◌then◌else◌, str_eq, any,
}
use xtremflow.Streaming.Args.{
  live_video_args, vod_video_args, recording_video_args, audio_args, live_args, vod_args,
  recording_args, seek, quiet, cuda, live_output, event_output,
}
use xtremflow.Streaming.{Streaming}
use xtremflow.Streaming.Health.{Play, play, plays, falls_back, Adds, plays_after-falls_back}

-- An argument that turns the GPU on.
abbrev pub names_gpu : String → Bool
names_gpu arg = str_eq arg "-hwaccel" || (str_eq arg "cuda" || str_eq arg "h264_nvenc")

abbrev pub on_gpu : List String → Bool
on_gpu = any names_gpu

on_gpu-append : (xs ys : List String) → on_gpu (xs ++ ys) ≡ on_gpu xs || on_gpu ys
on_gpu-append [] ys = refl
on_gpu-append (x ∷ xs) ys = ground (arith, on_gpu-append xs ys)

on_gpu-both :
    (xs ys : List String) → on_gpu xs ≡ false → on_gpu ys ≡ false → on_gpu (xs ++ ys) ≡ false
on_gpu-both xs ys e f = ground (arith, on_gpu-append xs ys)

on_gpu-if :
    (b : Bool) (xs ys : List String)
    → on_gpu xs ≡ false
    → on_gpu ys ≡ false
    → on_gpu (if b then xs else ys) ≡ false
on_gpu-if true xs ys e f = e
on_gpu-if false xs ys e f = f

on_gpu-live_video : (quality : String) → on_gpu (live_video_args quality false) ≡ false
unfolding live_video_args
on_gpu-live_video quality =
    on_gpu-if (str_eq quality "source") _ _ refl (
      on_gpu-if (str_eq quality "medium") _ _ refl (on_gpu-if (str_eq quality "low") _ _ refl refl))

on_gpu-vod_video : (quality : String) → on_gpu (vod_video_args quality false) ≡ false
unfolding vod_video_args
on_gpu-vod_video quality =
    on_gpu-if (str_eq quality "source") _ _ refl (
      on_gpu-if (str_eq quality "medium") _ _ refl (on_gpu-if (str_eq quality "low") _ _ refl refl))

on_gpu-recording_video :
    (copy_video : Bool) → on_gpu (recording_video_args copy_video false) ≡ false
unfolding recording_video_args
on_gpu-recording_video copy_video = on_gpu-if copy_video _ _ refl refl

on_gpu-audio : (with_filters : Bool) → on_gpu (audio_args with_filters) ≡ false
unfolding audio_args
on_gpu-audio true = refl
on_gpu-audio false = refl

on_gpu-live_args :
    (quality target : String)
    → names_gpu target ≡ false
    → on_gpu (live_args quality target false) ≡ false
unfolding live_args
on_gpu-live_args quality target plain = rw plain (
    on_gpu-both (live_video_args quality false ++ audio_args false) live_output
      (on_gpu-both (live_video_args quality false) (audio_args false) (on_gpu-live_video quality)
        (on_gpu-audio false))
      refl)

on_gpu-vod_args :
    (quality target : String)
    → names_gpu target ≡ false
    → on_gpu (vod_args quality target false) ≡ false
unfolding vod_args
on_gpu-vod_args quality target plain =
    let filters = not (str_eq quality "source") in
    rw plain (
      on_gpu-both (vod_video_args quality false ++ audio_args filters) event_output
        (on_gpu-both (vod_video_args quality false) (audio_args filters) (on_gpu-vod_video quality)
          (on_gpu-audio filters))
        refl)

on_gpu-seek :
    (show : ℕ → String) (start : ℕ)
    → names_gpu (show start) ≡ false
    → on_gpu (seek show start) ≡ false
on_gpu-seek show start plain = ground (arith, plain)

on_gpu-recording_args :
    (show : ℕ → String) (start : ℕ) (file : String) (copy_video : Bool)
    → names_gpu (show start) ≡ false
    → names_gpu file ≡ false
    → on_gpu (recording_args show start file copy_video false) ≡ false
unfolding recording_args
on_gpu-recording_args show start file copy_video shown plain =
    let gpu : Bool = not copy_video && false in
    let idle : gpu ≡ false = ground arith in
    let video = recording_video_args copy_video gpu in
    let tail = "-i" ∷ file ∷ video in
    let video_off : on_gpu video ≡ false = rw idle (on_gpu-recording_video copy_video) in
    let begun : on_gpu (quiet ++ cuda gpu) ≡ false = rw idle refl in
    let sought =
      on_gpu-both (quiet ++ cuda gpu) (seek show start) begun (on_gpu-seek show start shown) in
    let shown_video =
      on_gpu-both (quiet ++ cuda gpu ++ seek show start) tail sought (rw plain video_off) in
    on_gpu-both (quiet ++ cuda gpu ++ seek show start ++ tail ++ audio_args true) event_output
      (on_gpu-both (quiet ++ cuda gpu ++ seek show start ++ tail) (audio_args true) shown_video
        (on_gpu-audio true))
      refl

-- What a route asks FFmpeg for.
pub data Source : Type 0 where
  live vod : String → String → Source
  recording : ℕ → String → Bool → Source

abbrev pub input_of : Source → String
input_of (live quality target) = target
input_of (vod quality target) = target
input_of (recording start file copy_video) = file

abbrev pub build_of : (ℕ → String) → Source → Bool → List String
build_of show (live quality target) = live_args quality target
build_of show (vod quality target) = vod_args quality target
build_of show (recording start file copy_video) = recording_args show start file copy_video

-- A run of a route.
abbrev pub Routed : (ℕ → String) → Play → Type 0
Routed show r = (s : Source) × (r.build_args ≡ build_of show s) × (names_gpu (input_of s) ≡ false)

Routed-off :
    (show : ℕ → String)
    → ((n : ℕ) → names_gpu (show n) ≡ false)
    → (r : Play) → Routed show r
    → on_gpu (r.build_args false) ≡ false
Routed-off show shown r (live quality target, e, plain) =
    ap (λ f. on_gpu (f false)) e ∙ on_gpu-live_args quality target plain
Routed-off show shown r (vod quality target, e, plain) =
    ap (λ f. on_gpu (f false)) e ∙ on_gpu-vod_args quality target plain
Routed-off show shown r (recording start file copy_video, e, plain) =
    ap (λ f. on_gpu (f false)) e
    ∙ on_gpu-recording_args show start file copy_video (shown start) plain

-- Once a run has fallen back from the GPU, the runs of live streams, films and recordings that
-- begin within the cooldown launch no command that names the GPU, where their addresses do not.
pub plays-falls_back :
    (show_code : Option ℤ → String) (gpu_text : String → Bool) (show : ℕ → String) (r : Play)
    (rs : List Play) (st : Streaming)
    → ((n : ℕ) → names_gpu (show n) ≡ false)
    → falls_back show_code gpu_text r st ≡ true
    → All (λ (q : Play). q.first.clock.instant < r.again.clock.instant + st.cooldown) rs
    → All (Routed show) rs
    → let st' = play show_code gpu_text r st in
      Adds (λ command. on_gpu command ≡ false) st' (plays show_code gpu_text rs st')
plays-falls_back show_code gpu_text show r rs st shown broke early routed =
    plays_after-falls_back show_code gpu_text (λ command. on_gpu command ≡ false) r rs st broke
      early
      (All-map (Routed show) (λ (q : Play). on_gpu (q.build_args false) ≡ false)
        (Routed-off show shown) rs routed)
