-- ===== src/App/Tests.antt =====
-- An interface with two targets, and the theorem of src/tui/app.rs at it.
use httprove.Base.{ℕ, ◌≡◌, refl, List, [], ◌∷◌}
use httprove.Base.Deque.{trim_front}
use httprove.Text.{codes, same_text}
use httprove.Types.{Text, ProbeResult}
use httprove.Types.Examples.{hundredths, slow}
use httprove.Dns.Answers.{IpAddr}
use httprove.Stats.Recording.{record_probe, record_success}
use httprove.App.{
  App, new, numbered, update, update_all, find_index, modify_at, record_target, next_target,
  total_sent,
}
use httprove.App.Routing.{IsUpToDate, update_all-IsUpToDate}

abbrev no_texts : List IpAddr → List Text
no_texts ips = []

abbrev names : List Text
names = codes "https://b/" ∷ codes "https://a/" ∷ []

abbrev stray : ProbeResult ℕ
stray = record slow { target = codes "https://c/" }

abbrev results : List (ProbeResult ℕ)
results = slow ∷ stray ∷ slow ∷ []

abbrev app : App ℕ
app = update_all no_texts (new (λ name. name) names) results

sent_twice : total_sent app.targets ≡ 2
unfolding total_sent update_all new numbered update find_index modify_at record_target record_probe
    record_success trim_front same_text
sent_twice = refl

selects_in_turn : (next_target app).selected ≡ 1
unfolding next_target update_all new numbered update find_index modify_at record_target record_probe
    record_success trim_front same_text
selects_in_turn = refl

update_all-IsUpToDate_example : IsUpToDate no_texts (λ name. name) names app results
update_all-IsUpToDate_example = update_all-IsUpToDate no_texts (λ name. name) names results
