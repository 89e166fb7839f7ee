-- ===== src/Tests/TurnHandling.antt =====
-- A session with a deprecated delay and another argument, and one with an explicit block.
use openrtc_python.Prelude.{[], ◌∷◌, false}
use openrtc_python.Prelude.Text.{Text, codes}
use openrtc_python.Prelude.Dict.{Dict}
use openrtc_python.TurnHandling.{
  Any, boolean, object, mapping, Entries, nil, entry, turn_handling_key,
}

abbrev old_style : Dict Any
old_style =
    (codes "min_endpointing_delay", object 5)
    ∷ (codes "vad", object 7)
    ∷ (codes "allow_interruptions", boolean false)
    ∷ []

abbrev explicit : Entries
explicit = entry (codes "interruption") (mapping (entry (codes "min_words") (object 2) nil)) nil

abbrev new_style : Dict Any
new_style = (turn_handling_key, mapping explicit) ∷ old_style
