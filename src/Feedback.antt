-- ===== src/Feedback.antt =====
-- feedback: the mirror of human reviews, and the labelled dataset that is built from them.
pub mod Reviews
pub mod Features
pub mod Dataset
pub mod Labels
pub mod Agreement
pub mod Present
pub mod Again
mod Tests
