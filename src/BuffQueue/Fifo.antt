-- ===== src/BuffQueue/Fifo.antt =====
-- What a buffer queue promises: a bounded first-in first-out list of frames that can be closed.
use vision_flow.Base.{
  ℕ, Bool, true, false, none, some, List, [], ◌∷◌, ◌++◌, leb, ◌==◌, if◌then◌else◌, length,
}
use vision_flow.Error.{success, invalid_parameter, oom, file_err}
use vision_flow.Sync.{result}
use vision_flow.BuffQueue.Threads.{Op, pushes, pops, shuts_down, resets, Reply}

pub record Fifo : Type 0 where
  pub frames : List ℕ
  pub bound : ℕ
  pub closed : Bool

unfoldable pub offer : Fifo → ℕ → Reply × Fifo
offer f fb =
    if fb == 0
    then (result invalid_parameter none, f)
    else if leb f.bound (length f.frames)
    then (result oom none, f)
    else (result success none, record f { frames = f.frames ++ (fb ∷ []) })

unfoldable pub poll : Fifo → Reply × Fifo
poll f = elim f.frames [
  | [] ↦ (result file_err (some 0), f)
  | x ∷ xs ↦ (result success (some x), record f { frames = xs })
]

unfoldable pub step : Fifo → Op → Reply × Fifo
step f (pushes _ fb) = offer f fb
step f (pops _) = poll f
step f (shuts_down _) = (result success none, record f { closed = true })
step f resets = (result success none, record f { closed = false })

unfoldable pub run : Fifo → List Op → List Reply × Fifo
run f [] = ([], f)
run f (op ∷ ops) = let (r, f') = step f op in let (rs, f'') = run f' ops in (r ∷ rs, f'')
