-- ===== src/Expat/Rows/Tests.antt =====
-- Rows of both libraries.
use xpact.Prelude.{String, ◌≡◌, refl, [], ◌∷◌}
use xpact.Expat.Events.{joined_events, split_bars, partition_colon, closes}
use xpact.Expat.Rows.{Run, position, classify, finding}

abbrev run : String → String → String → Run
run column code events = record {
  id = "1";
  group = "utf8";
  input = "c10-bad";
  callbacks = "default";
  chunks = "whole";
  input_bytes = "<a>";
  calls = "1";
  verdict = "REJECT";
  error_code = code;
  line = "1";
  column = column;
  byte_index = column;
  failed_call = "1";
  events = events;
}

moved : finding (run "3" "4" "") (classify (run "3" "4" "") (run "0" "4" "")) ≡ "utf8-position" ∷ []
unfolding classify finding position
moved = refl

divided : classify (run "3" "4" "text:ab") (run "3" "4" "text:a | text:b") ≡ "split-only" ∷ []
unfolding classify position joined_events split_bars partition_colon closes
divided = refl
