-- ===== src/Pipecat/Notices.antt =====
-- The notices of a pipecat call.
use openrtc_python.Prelude.{◌≡◌, refl, true, false, List, [], ◌∷◌}
use openrtc_python.Pipecat.{
  Frame, start_frame, end_frame, cancel_frame, other_frame, Notice, session_start, session_end,
  new_lifecycle, start_session, end_session, on_push_frame, push_frames,
}

-- The end that the frames after a start lead to.
abbrev pub end_of : List Frame → List Notice
end_of [] = []
end_of (end_frame ∷ frames) = session_end false ∷ []
end_of (cancel_frame ∷ frames) = session_end true ∷ []
end_of (_ ∷ frames) = end_of frames

abbrev pub notices_of : List Frame → List Notice
notices_of [] = []
notices_of (start_frame ∷ frames) = session_start ∷ end_of frames
notices_of (_ ∷ frames) = notices_of frames

push_frames-ended :
    (frames : List Frame) (n : List Notice)
    → (push_frames frames (record { started = true; ended = true; notices = n })).notices ≡ n
unfolding push_frames on_push_frame start_session end_session
push_frames-ended [] n = refl
push_frames-ended (start_frame ∷ frames) n = push_frames-ended frames n
push_frames-ended (end_frame ∷ frames) n = push_frames-ended frames n
push_frames-ended (cancel_frame ∷ frames) n = push_frames-ended frames n
push_frames-ended (other_frame ∷ frames) n = push_frames-ended frames n

push_frames-started :
    (frames : List Frame)
    → (push_frames frames
        (record { started = true; ended = false; notices = session_start ∷ [] })).notices
      ≡ session_start ∷ end_of frames
unfolding push_frames on_push_frame start_session end_session
push_frames-started [] = refl
push_frames-started (start_frame ∷ frames) = push_frames-started frames
push_frames-started (end_frame ∷ frames) =
    push_frames-ended frames (session_start ∷ session_end false ∷ [])
push_frames-started (cancel_frame ∷ frames) =
    push_frames-ended frames (session_start ∷ session_end true ∷ [])
push_frames-started (other_frame ∷ frames) = push_frames-started frames

-- Whatever frames a call's pipeline pushes, its observers are told nothing before the first start
-- frame, then one start, and at most one end: that of the first end or cancel frame after the start,
-- as cancelled exactly if it is a cancel frame.
pub push_frames-notices :
    (frames : List Frame) → (push_frames frames new_lifecycle).notices ≡ notices_of frames
unfolding push_frames on_push_frame start_session end_session
push_frames-notices [] = refl
push_frames-notices (start_frame ∷ frames) = push_frames-started frames
push_frames-notices (end_frame ∷ frames) = push_frames-notices frames
push_frames-notices (cancel_frame ∷ frames) = push_frames-notices frames
push_frames-notices (other_frame ∷ frames) = push_frames-notices frames
