-- ===== src/Pcap/Format/Limit.antt =====
-- `max_packets` of the classic reader cuts the sequence of records and changes nothing else.
use net_audit.Common.{
  ℕ, zero, suc, ◌+◌, ◌≡◌, refl, ap, true, false, Option, none, some, take, arith, leb, ◌∷◌, Bool,
  length,
}
use net_audit.Pcap.Format.{GlobalHeader, PacketRecord, Stream}
use net_audit.Pcap.Format.Reader.{
  Step, end_of_file, failed, yielded, read_record, Reading, read_from, read_pcap_records,
  known_size, after_step,
}

take-after_step :
    (k : ℕ) (step : Step) (next next' : PacketRecord → Stream → Reading)
    → ((r : PacketRecord) (f : Stream) → (next r f).records ≡ take k (next' r f).records)
    → (after_step step next).records ≡ take (suc k) (after_step step next').records
take-after_step k end_of_file next next' h = refl
take-after_step k (failed e) next next' h = refl
take-after_step k (yielded r f) next next' h = ap (λ t. r ∷ t) (h r f)

read_from-limit :
    (fuel : ℕ) (header : GlobalHeader) (size : Option ℕ) (n k count : ℕ) (f : Stream)
    → count + k ≡ n
    → (read_from fuel header size (some n) count f).records
      ≡ take k (read_from fuel header size none count f).records
unfolding read_from
read_from-limit zero header size n zero count f e = refl
read_from-limit zero header size n (suc k) count f e = refl
read_from-limit (suc fuel) header size n zero count f e =
    let stop : leb n count ≡ true = ground arith in rw (stop, read_from)
read_from-limit (suc fuel) header size n (suc k) count f e =
    let more : leb n count ≡ false = ground arith in
    rw (more, read_from)
      (take-after_step k (read_record header size count f)
        (λ r f'. read_from fuel header size (some n) (count + 1) f')
        (λ r f'. read_from fuel header size none (count + 1) f')
        (λ r f'. read_from-limit fuel header size n k (count + 1) f' (omega arith)))

-- With `max_packets` n, `read_pcap_records` yields exactly the first n of the records that it yields
-- without a limit, from any file, intact or not.
pub read_pcap_records-limit :
    (f : Stream) (header : GlobalHeader) (size : Option ℕ) (n : ℕ) (has_tell : Bool)
    → (read_pcap_records f header size (some n) has_tell).records
      ≡ take n (read_pcap_records f header size none has_tell).records
unfolding read_pcap_records
read_pcap_records-limit f header size n has_tell =
    read_from-limit (length f.unread + 1) header (known_size size has_tell) n n 0 f (omega arith)
