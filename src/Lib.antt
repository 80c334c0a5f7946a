-- ===== src/Lib.antt =====
-- udppingpong: a program that sends UDP packets at a given rate (pingpong_sender) and one that sends
-- them back (pingpong_bouncer), modelled from src/*.cpp and include/*.h.
--
-- The parts and how they work together.
--   * The bouncer (src/UDPEchoBouncer.cpp) keeps a pool of worker threads
--     (src/UDPEchoBouncerThread.cpp) that are bound to one address. A worker answers each packet and
--     counts; `getCounter` collects and clears the counts of all workers. Bouncer.antt is the pool,
--     Bouncer/Reachable.antt the states that calls of its methods in any order bring about,
--     Bouncer/Thread.antt the worker, with its `bind` in Bouncer/Thread/Setup.antt. Workers and the
--     collecting thread meet at the counter, without a lock on the worker's side:
--     Bouncer/Thread/Sharing.antt models the interleavings of their loads and stores as lists of
--     turns; elsewhere `getCounter` runs while no worker counts.
--     The pool is a list in the order of creation; no result on it tells of that order.
--     Bouncer/Program.antt is src/bouncer.cpp up to the loop that collects the counters and prints, and
--     Bouncer/Program/Main.antt its `main` as a whole; Bouncer/Program/Lines.antt is about the
--     lines it prints.
--   * A worker of the sender (src/UDPEchoSenderThread.cpp) sends packets, with a rate limit (the
--     running time is cut into slices) or without one, waits for late answers, and runs a receiver
--     thread (src/UDPEchoReceiverThread.cpp) beside it that measures the round trip times.
--     Sender/Thread.antt has its state, its settings and `sendPacket`, Sender/Thread/Rate.antt
--     `runWithRateLimit`, Sender/Thread/Run.antt the other loop, `waitForTimeout` and `run`,
--     Sender/Thread/Run/Accepted.antt the packets of a run that `send` has accepted,
--     Sender/Thread/Connect.antt the constructor, `connect`, `setSourceIP` and the destructor,
--     Sender/Thread/Getters.antt what it tells of its receiver; Receiver.antt is the receiver.
--   * The sender (src/sender.cpp) spreads a query rate over its workers, runs them and adds up their
--     results: Sender/Load.antt and Sender/Results.antt. Sender/Program.antt has the defaults of its
--     settings, the list of query rates and the preparation of the threads, and
--     Sender/Session.antt works through that list. Sender/Results/Figures.antt has the figures that
--     are printed and the CSV file, and Sender/Main.antt puts all of it together as `main`.
--     The pool is a set of pointers, so the order of its threads is an argument: `place` of
--     `ThreadAnswers` says where each one stands.
--     Sender/Load/Lines.antt has the lines that a load prints once a second; Status.antt has the
--     figures of such a line, for both programs. Sender/Results/Pool.antt is the pool of workers
--     without its order.
--   * Echo.antt puts a worker of the sender, the network (Network.antt), a worker of the bouncer and
--     the receiver together: Echo/Losses.antt for the packets that get lost, Echo/Times.antt for the
--     round trip times, and Echo/Presented.antt for what the sender presents.
--     Datagram.antt is a datagram and the buffer it is taken into, and Bouncer/Thread/Contents.antt
--     and Receiver/Contents.antt say what is in the packets of the bouncer and of the receiver.
--   * Sensor.antt has the samples of the network that both programs print
--     (src/SampleSensorData.cpp), Sensor/System.antt those of the machine on Linux, and
--     Sensor/FreeBsd.antt all of them on FreeBSD. Sensor/Exchange.antt is the exchange of a sample as
--     an array, with its keys and values in files below it.
--   * Counter.antt is the counter that the bouncer hands out (src/UDPEchoCounter.cpp), with its
--     exchange as an array in Counter/Exchange.antt, Arrays.antt what both exchanges use of the
--     arrays and the formats of ppl7, Resolve.antt the look-up of a host name,
--     Socket.antt the socket calls that open and close descriptors, Exception.antt the exceptions.
--
-- How the code is read.
--   * An object is a record with the fields of its class; a method is a function from the object to
--     the object (in snake_case: `setPacketSize` is `set_packet_size`). A method that may throw gives
--     a `Result`, or a record of the object, the calls made and how it ended.
--   * What the operating system, the clock and ppl7 answer are arguments: a record for each call or
--     each pass of a loop, in a list or as a function of the number of the pass. Socket calls that
--     matter are values in a list.
--   * Loops that run until the clock or the stop flag ends them recurse on the list of passes given;
--     the result tells whether the loop ended within it. The theorems on the end of each loop say
--     which passes end it. Only the loop over a range of query rates has fuel: one more than there
--     are rates is enough, and with a step of 0 no fuel is.
--   * `int64_t` counters are 64-bit words, whose sums wrap at 2 ^ 64 (Base/Word.antt); `int` and the
--     numbers in the arithmetic of the slices are integers without a bound. `double` is a type with
--     the operations of Double.antt. What is proved of order needs the laws of `IsOrdered`; NaN is
--     not excluded. Double/Micros.antt is a concrete instance.
--   * The keys of an array of ppl7 are compared without regard to case, and numbers by their value: the
--     names of interfaces are compared by one test as names and by another one as keys.
--   * The network loses datagrams, copies them and carries them in any order. What it does, and how
--     the compiler lays out a `PACKET`, are arguments: `Transit`, `Trip` and `IsLayout`.
--   * `none` of an `Option` stands for a failed call (-1), unless a comment says otherwise.
--
-- Not modelled: the help and other fixed texts, thread names, the signal handlers
-- (they set the flag that the loops are given) and ppl7, a library that the repository holds a copy
-- of. The command lines are taken as ppl7 takes them apart.
pub mod Base
pub mod Double
pub mod Exception
pub mod Arrays
pub mod Datagram
pub mod Echo
pub mod Network
pub mod Socket
pub mod Status
pub mod Resolve
pub mod Shares
pub mod Counter
pub mod Bouncer
pub mod Receiver
pub mod Sender
pub mod Sensor
