-- ===== src/Tasks/Callback.antt =====
-- What the callback of a stream preserves, the stream preserves
-- (internal/tasks/esi/refreshSystemIndexes.go, internal/tasks/esi/refreshAdjustedPrices.go).
use eve_industry_planner_sta.Prelude.{arith, String, List, [], ◌∷◌, Option, Option-cases, inl, inr}
use eve_industry_planner_sta.Prelude.Int.{ℤ}
use eve_industry_planner_sta.Esi.Feedback.{Response}
use eve_industry_planner_sta.Esi.Request.{Result, ok, err}
use eve_industry_planner_sta.Tasks.Stream.{
  Start, array_start, another_token, bad_start, Ending, array_end, bad_end, Decoded, stream_items,
  stream_array, decode_body, stream_response, stream_result,
}

module _ {A B S : Type 0} (normalize : ℤ → A → B) (on_item : B → S → S × Option String)
    (P : S → Type 0) (step : (b : B) (s : S) → P s → P (on_item b s).0) where
  stream_items-preserves :
      (now_ms : ℤ) (items : List A) (ending : Ending) (s : S)
      → P s
      → P (stream_items normalize on_item now_ms items ending s).0
  unfolding stream_items
  stream_items-preserves now_ms [] array_end s h = h
  stream_items-preserves now_ms [] (bad_end text) s h = h
  stream_items-preserves now_ms (item ∷ rest) ending s h =
      let h' = step (normalize now_ms item) s h in
      elim (Option-cases (on_item (normalize now_ms item) s).1) [
        | inl e ↦ rw (e, stream_items) (stream_items-preserves now_ms rest ending _ h')
        | inr (text, e) ↦ rw (e, stream_items) h'
      ]

  stream_array-preserves :
      (now_ms : ℤ) (start : Start) (items : List A) (ending : Ending) (s : S)
      → P s
      → P (stream_array normalize on_item now_ms start items ending s).0
  unfolding stream_array
  stream_array-preserves now_ms (bad_start text) items ending s h = h
  stream_array-preserves now_ms another_token items ending s h = h
  stream_array-preserves now_ms array_start items ending s h =
      stream_items-preserves now_ms items ending s h

  pub stream_result-preserves :
      (now_ms : ℤ) (result : Result Response) (decoded : Response → Decoded A) (s : S)
      → P s
      → P (stream_result normalize on_item now_ms result decoded s).0
  unfolding stream_result stream_response decode_body
  stream_result-preserves now_ms (err e) decoded s h = h
  stream_result-preserves now_ms (ok resp) decoded s h =
      let d = decoded resp in
      ground (arith, stream_array-preserves now_ms d.start d.items d.ending s h)
