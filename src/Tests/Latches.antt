-- ===== src/Tests/Latches.antt =====
-- The device-loss latch and the re-assertion worker at work: a loss that a return has overtaken.
use anolis.Base.{
  ◌≡◌, refl, true, false, [], ◌∷◌, Text, codes, contains, text_key, find, assign, insert_sorted,
}
use anolis.Protocol.{code_ok, code_unavailable}
use anolis.LossLatch.{DeviceLossLatch, Edge, new_latch, apply_reachability_edge, deliver}
use anolis.LossLatch.Reassert.{is_back_latched, asked_since_loss, return_is_reasserted}
use anolis.Reissue.{
  stop, ReissueWorker, new_worker, post, run, started, stops, wakes, returns, step,
}
use anolis.Reissue.Drain.{rounds, stop_ends, request_runs_before_exit}

abbrev bread : Text
bread = codes "bread0/impeller"

abbrev lost : Edge
lost = record {
  device_handle = bread;
  is_return = false;
  last_status = code_unavailable;
  edge_seq = 1;
}

abbrev returned : Edge
returned = record { device_handle = bread; is_return = true; last_status = code_ok; edge_seq = 2 }

abbrev latched_one : DeviceLossLatch
latched_one = record { latched = bread ∷ []; last_edge = [] }

return_is_reasserted_example : asked_since_loss bread false new_latch (returned ∷ lost ∷ []) ≡ true
unfolding is_back_latched deliver apply_reachability_edge find assign insert_sorted contains
return_is_reasserted_example = return_is_reasserted bread (returned ∷ lost ∷ []) refl

abbrev queued : ReissueWorker
queued = record new_worker { queue = bread ∷ [] }

request_runs_before_exit_example :
    contains bread (started queued (wakes ∷ returns true ∷ stops ∷ wakes ∷ [])) ≡ true
unfolding post run step contains
request_runs_before_exit_example =
    request_runs_before_exit [] (wakes ∷ returns true ∷ stops ∷ wakes ∷ []) bread queued refl refl

stop_ends_example : (run (stop queued) (rounds 2)).exited ≡ true
stop_ends_example = stop_ends queued refl
