-- ===== src/Tests/Stopping.antt =====
-- A teardown with one refused Cancel.
use smsc95xx_macos.Base.{◌+◌, ◌*◌, ◌≤◌, ◌<◌, ◌≡◌, ◌↔◌, refl}
use smsc95xx_macos.Driver.Teardown.{
  Teardown, begin_stop, cancel_count, finalize, Step, cancel_accepted, cancel_refused, Reachable,
  begun, then_step,
}
use smsc95xx_macos.Driver.Teardown.Countdown.{Reachable-stops_once, Reachable-goes_on}
use smsc95xx_macos.Tests.Sample.{running}

-- Four sources; the first Cancel is accepted, and the second refused.
abbrev start : Teardown
start = record { pending = 4; to_cancel = 4; waiting = 0; releases = 0; stops = 0 }

abbrev second : Teardown
second = record { pending = 3; to_cancel = 2; waiting = 1; releases = 0; stops = 0 }

second-Reachable : Reachable running.handles second
unfolding begin_stop cancel_count finalize
second-Reachable =
    then_step running.handles _ second
      (then_step running.handles start _ (begun running.handles) (cancel_accepted start 3 refl))
      (cancel_refused _ 2 refl)

Reachable-stops_once_example :
    (second.stops ≤ 1)
    × (second.releases ≡ second.stops)
    × ((second.stops ≡ 1) ↔ ((second.to_cancel ≡ 0) × (second.waiting ≡ 0)))
Reachable-stops_once_example = Reachable-stops_once running.handles second second-Reachable

Reachable-goes_on_example :
    ((t : Teardown) × Step second t)
    × ((t : Teardown)
        → Step second t
        → t.to_cancel * 2 + t.waiting < second.to_cancel * 2 + second.waiting)
Reachable-goes_on_example = Reachable-goes_on running.handles second second-Reachable refl
