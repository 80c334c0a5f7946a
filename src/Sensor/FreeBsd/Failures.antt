-- ===== src/Sensor/FreeBsd/Failures.antt =====
-- What a sample that fails on FreeBSD leaves behind, and a bound on the free memory.
use udppingpong.Base.Word.{word_of}
use udppingpong.Base.{Bool, ◌≡◌, ◌<◌, ◌*◌, ◌^◌, arith, ◌↔◌, ℕ, some, inl, inr, ap}
use udppingpong.Base.Int.{pos, ◌*ℤ◌}
use udppingpong.Double.{Double}
use udppingpong.Exception.{Exception, throw, Result-cases}
use udppingpong.Sensor.System.{SystemStat, Sysinfo}
use udppingpong.Sensor.FreeBsd.{
  SystemAnswers, Kernel, open_kernel, sample_sensor_data, exit_kvm, int_of, sample_sysinfo,
  get_sysctl, sample_all, sample_network,
}

word_of-int_of : (n : ℕ) → n < 2 ^ 63 → (word_of (int_of (pos n)) ≡ n) ↔ (n < 2 ^ 31)
word_of-int_of n h = (λ e. ground arith, λ e. ground arith)

pos_mul : (m n : ℕ) → pos m *ℤ pos n ≡ pos (m * n)
unfolding ◌*ℤ◌
pos_mul m n = ground arith

module _ {D N : Type 0} ⦃d : Double D⦄ where
  freeram_lem :
      (a : SystemAnswers D N) (stat : Sysinfo) (n : ℕ)
      → a.free_count ≡ some (pos n, 4)
      → (sample_sysinfo a stat).0.freeram ≡ word_of (int_of (pos (n * a.pagesize)))
  unfolding sample_sysinfo get_sysctl
  freeram_lem a stat n h = elim (Result-cases (get_sysctl a.physmem 8)) [
    | inl (x, e) ↦ rw (h, e, sample_sysinfo) (ap (λ z. word_of (int_of z)) (pos_mul n a.pagesize))
    | inr (x, e) ↦ rw (h, e, sample_sysinfo) (ap (λ z. word_of (int_of z)) (pos_mul n a.pagesize))
  ]

  -- The free memory that is sampled, from the number of free pages, is right if and only if it is
  -- less than 2 GB.
  pub sample_sysinfo_free :
      (a : SystemAnswers D N) (stat : Sysinfo) (n : ℕ)
      → a.free_count ≡ some (pos n, 4)
      → n * a.pagesize < 2 ^ 63
      → ((sample_sysinfo a stat).0.freeram ≡ n * a.pagesize) ↔ (n * a.pagesize < 2 ^ 31)
  sample_sysinfo_free a stat n h small =
      rw (freeram_lem a stat n h) (word_of-int_of (n * a.pagesize) small)

  -- The handlers that are registered are as many as the handles that `exit_kvm` closes: one, once
  -- the kernel has been opened, and none before.
  sample_sensor_data-exits :
      (same : N → N → Bool) (a : SystemAnswers D N) (k : Kernel) (stat : SystemStat D N)
      → k.exits ≡ exit_kvm k
      → let after = (sample_sensor_data same a (k, stat)).0.0 in after.exits ≡ exit_kvm after
  unfolding sample_sensor_data open_kernel exit_kvm
  sample_sensor_data-exits same a k stat h = ground (arith, h)

  -- After a sample that has thrown, the interfaces are those from before.
  sample_sensor_data_throws :
      (same : N → N → Bool) (a : SystemAnswers D N) (k : Kernel) (stat : SystemStat D N)
      (e : Exception)
      → (sample_sensor_data same a (k, stat)).1 ≡ throw e
      → (sample_sensor_data same a (k, stat)).0.1.net_total.interfaces ≡ stat.net_total.interfaces
  unfolding sample_sensor_data open_kernel sample_all sample_sysinfo sample_network
  sample_sensor_data_throws same a k stat e h = ground (arith, h)
