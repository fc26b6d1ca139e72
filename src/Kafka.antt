-- ===== src/Kafka.antt =====
-- platform/kafka/kafkaconsumer: the Kafka consumer.
pub mod Message
pub mod Consumer
