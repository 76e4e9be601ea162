-- ===== src/Tests/NetDeposits.antt =====
-- The net deposits after two and a half hours: deposits in two hours, and a withdrawal in the third.
use rain_protocol.Prelude.{ℕ, Bool, true, false, List, [], ◌∷◌, ◌≡◌, refl, All}
use rain_protocol.Prelude.Int.{pos}
use rain_protocol.Schema.Row.Trading.{Balances}
use rain_protocol.Server.NetDeposits.{net_amount, net_deposits_hourly}
use rain_protocol.Server.NetDeposits.Laws.{amount_before, IsNatural, net_amount-amount_before}

abbrev pub balance_row : ℕ → ℕ → Bool → Balances
balance_row time amount deposit = record {
  event_digest = "Da0";
  digest = "Da";
  sender = "7.";
  checkpoint = pos 12;
  checkpoint_timestamp_ms = pos time;
  package_id = "";
  balance_manager_id = "1.";
  asset = "SUI";
  amount = pos amount;
  deposit = deposit;
}

abbrev pub rows : List Balances
rows =
    balance_row 100 40 true
    ∷ balance_row 3600000 7 true
    ∷ balance_row 7200000 5 false
    ∷ balance_row 9000000 1 true
    ∷ []

pub natural : All IsNatural rows
natural = ((100, refl), ((3600000, refl), ((7200000, refl), ((9000000, refl), tt))))

net_amount-amount_before_example :
    net_amount (net_deposits_hourly rows) rows "SUI" (pos 9000000)
    ≡ amount_before "SUI" (pos 9000000) rows
net_amount-amount_before_example = net_amount-amount_before "SUI" 9000000 rows natural
