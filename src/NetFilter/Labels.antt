-- ===== src/NetFilter/Labels.antt =====
-- src/netFilter.c: the labels of the log lines, by the number of the protocol.
use netfilter.Base.{ℕ, ◌≡◌, List, [], ◌∷◌, ◌++◌, arith, Bytes, codes, ◌==◌, if◌then◌else◌}
use netfilter.Base.Decimal.{decimal}
use netfilter.NetFilter.Hook.{protocol_label}

-- The numbers that IANA assigned, each with what its log line is to start with.
abbrev pub labels : List (ℕ × Bytes)
labels =
    (0, codes "IP:")
    ∷ (1, codes "ICMP:")
    ∷ (2, codes "IGMP:")
    ∷ (12, codes "PUP:")
    ∷ (22, codes "IDP:")
    ∷ (47, codes "GRE:")
    ∷ (50, codes "ESP AND AH:")
    ∷ (51, codes "ESP AND AH:")
    ∷ (255, codes "RAW:")
    ∷ []

abbrev pub label_in : List (ℕ × Bytes) → ℕ → Bytes
label_in [] protocol = codes "Other Protocol=" ++ (decimal protocol ++ codes ", ")
label_in ((number, label) ∷ rest) protocol =
    let later = label_in rest protocol in if protocol == number then label else later

pub protocol_label-label_in : (protocol : ℕ) → protocol_label protocol ≡ label_in labels protocol
unfolding protocol_label
protocol_label-label_in protocol = ground arith
