-- ===== src/Sender.antt =====
-- The sender: its worker (src/UDPEchoSenderThread.cpp) and the program around it (src/sender.cpp).
pub mod Thread
pub mod Results
pub mod Load
pub mod Program
pub mod Session
pub mod Main
