-- ===== src/AtChannel/Urc/Tests.antt =====
-- The theorem on the dispatcher at a concrete input.
use esp_modem_link.Common.{◌≡◌, ◌≢◌, refl, true, List, [], ◌∷◌, arith}
use esp_modem_link.Common.Lists.{codes}
use esp_modem_link.Common.Search.{trim_with, drop_while, drop_while_back}
use esp_modem_link.AtChannel.Urc.{Table, new_dispatcher, dispatch, trim}
use esp_modem_link.AtChannel.Urc.Live.{Arranges, weigh}
use esp_modem_link.AtChannel.Urc.Run.{
  Operation, subscribes, unsubscribes, perform_all, after_all, invoked, runs, nothing_live,
  line_command, invoked-dispatch,
}

-- The buckets as they were made.
abbrev as_made : Table → Table
as_made table = table

as_made-Arranges : Arranges as_made
as_made-Arranges f table = refl

abbrev some_calls : List Operation
some_calls =
    subscribes (codes "+MIP") true ∷ subscribes (codes "+MIPURC") true ∷ unsubscribes 1 ∷ []

named : trim (codes "+MIPURC: 1") ≢ []
unfolding trim_with drop_while drop_while_back
named = λ e. cc

invoked-dispatch_example :
    invoked 2 (dispatch (codes "+MIPURC: 1") (perform_all as_made some_calls new_dispatcher))
    ≡ weigh
        (runs 2 (line_command (trim (codes "+MIPURC: 1"))))
        (after_all some_calls nothing_live).subscriptions
invoked-dispatch_example =
    invoked-dispatch as_made some_calls (codes "+MIPURC: 1") 2 as_made-Arranges (omega arith) named
