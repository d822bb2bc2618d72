-- ===== src/Api/Refresh/Tests.antt =====
-- Two calls that share one refresh.
use omni_tun.Prelude.{◌≤◌, ◌≡◌, refl, inl, inr, length}
use omni_tun.Js.{str}
use omni_tun.Api.Refresh.{
  Shared, idle, begin, join, settle_run, resume, deliver, Reach, here, next, In, enter_first,
  enter_later, settles, owner_resumes, waiter_resumes,
}
use omni_tun.Api.Refresh.Sharing.{Reach-single, Reach-same_value}

abbrev both_wait : Shared
both_wait = join 0 (begin idle)

both_waiting : Reach idle both_wait
unfolding begin
both_waiting = next (next here (enter_first idle refl)) (enter_later (begin idle) 0 refl)

Reach-single_example : length both_wait.running ≤ 1
Reach-single_example = Reach-single both_waiting

abbrev both_done : Shared
both_done = deliver 0 (str "new") (resume 0 (str "new") (settle_run 0 (str "new") both_wait))

both_finished : Reach idle both_done
unfolding begin join settle_run resume deliver
both_finished =
    next
      (next (next both_waiting (settles both_wait 0 (str "new") refl))
        (owner_resumes (settle_run 0 (str "new") both_wait) 0 (str "new") refl (inl refl)))
      (waiter_resumes (resume 0 (str "new") (settle_run 0 (str "new") both_wait)) 0 (str "new") refl
        (inl refl))

owner_got : In (0, str "new") both_done.returned
unfolding begin join settle_run resume deliver
owner_got = inr (inl refl)

waiter_got : In (0, str "new") both_done.returned
unfolding begin join settle_run resume deliver
waiter_got = inl refl

Reach-same_value_example : (str "new" ≡ str "new") × In (0, str "new") both_done.settled
Reach-same_value_example =
    Reach-same_value 0 (str "new") (str "new") both_finished owner_got waiter_got
