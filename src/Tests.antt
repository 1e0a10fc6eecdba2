-- ===== src/Tests.antt =====
-- Runs of the models at concrete inputs, and the theorems applied at inputs that meet their
-- hypotheses.
mod StoreTests
mod LawfulTests
mod FfiTests
mod IocpTests
mod DriverTests
mod KqueueTests
mod ResourceTests
mod TypedTests
mod IoTests
mod PollerTests
mod BufTests
mod EpollTests
mod UringTests
mod NetTests
